-- ===== src/Config/Json.antt =====
-- src/waf_config.cc: how values are found in the JSON text of the configuration. A position in a text
-- is the text from there on, and npos is `none`.
pub mod Fuel
pub mod Nested
pub mod Labels
use modsecurity_proxy_wasm.Base.{
  ℕ, suc, zero, ◌+◌, ◌^◌, ◌-◌, Bool, true, false, not, ◌||◌, List, [], ◌∷◌, ◌++◌, Option, none,
  some, if◌then◌else◌, ltb, ◌==◌, length, drop, ◌>>=◌, run_or, ℤ, pos, negsuc,
}
use modsecurity_proxy_wasm.Text.{
  Bytes, codes, is_empty, is_digit, starts_with, trim, behind, split_at, skip_while,
}
use modsecurity_proxy_wasm.Http.{leading_number}
use modsecurity_proxy_wasm.Escape.{read_string}
use modsecurity_proxy_wasm.Telemetry.{Floats}

-- `looksLikeJson`
unfoldable pub looks_like_json : Bytes → Bool
looks_like_json s = starts_with (codes "{") (trim s)

-- The variables of the loops of `findJsonObjectEnd` and `findJsonArrayEnd`.
pub record Scan : Type 0 where
  pub depth : ℕ
  pub in_string : Bool
  pub escape : Bool

-- One character of the loop, and whether it closes the outermost bracket.
unfoldable pub scan_char : ℕ → ℕ → Scan → ℕ → Scan × Bool
scan_char opening closing sc c =
    if sc.in_string
    then if sc.escape
      then (record sc { escape = false }, false)
      else if c == b'\\'
      then (record sc { escape = true }, false)
      else (record sc { in_string = not (c == b'"') }, false)
    else if c == b'"'
    then (record sc { in_string = true }, false)
    else if c == opening
    then (record sc { depth = sc.depth + 1 }, false)
    else if c == closing
    then (record sc { depth = sc.depth - 1 }, sc.depth - 1 == 0)
    else (sc, false)

-- The text through the closing bracket, and the text behind it.
unfoldable pub scan_from : ℕ → ℕ → Scan → Bytes → Option (Bytes × Bytes)
scan_from opening closing sc [] = none
scan_from opening closing sc (c ∷ s) =
    let next = scan_char opening closing sc c in
    elim next.1 [
      | true ↦ some (c ∷ [], s)
      | false ↦ elim (scan_from opening closing next.0 s) [
        | none ↦ none
        | some (inside, rest) ↦ some (c ∷ inside, rest)
      ]
    ]

abbrev pub bracketed_from : ℕ → ℕ → Bytes → Option (Bytes × Bytes)
bracketed_from opening closing s =
    if starts_with (opening ∷ []) s
    then scan_from opening closing (record { depth = 0; in_string = false; escape = false }) s
    else none

-- `findJsonObjectEnd` and `findJsonArrayEnd`: the object or the array that the text begins with.
abbrev pub json_object : Bytes → Option (Bytes × Bytes)
json_object s = bracketed_from b'{' b'}' s

abbrev pub json_array : Bytes → Option (Bytes × Bytes)
json_array s = bracketed_from b'[' b']' s

-- `"\"" + key + "\""`
abbrev pub quoted : Bytes → Bytes
quoted key = b'"' ∷ (key ++ b'"' ∷ [])

-- Behind an occurrence of the key: the object behind the colon, where nothing but white space stands
-- between them, or the next round.
unfoldable pub object_behind : Bytes → Option (Bytes × Bytes)
object_behind after_key = do
  colon ← split_at b':' after_key
  brace ← split_at b'{' colon.1
  some (trim brace.0, b'{' ∷ brace.1)

-- What the loop of `extractJsonObjectSlice` does in a round: it ends with a result, or goes on behind
-- an occurrence of the key.
pub data SliceRound : Type 0 where
  slice_end : Option Bytes → SliceRound
  slice_next : Bytes → SliceRound

abbrev found_slice : Bytes → Option (Bytes × Bytes) → SliceRound
found_slice after_key none = slice_end none
found_slice after_key (some (between, text)) =
    if is_empty between
    then slice_end (do object ← json_object text; some object.0)
    else slice_next after_key

unfoldable pub slice_round : Bytes → Bytes → SliceRound
slice_round needle s = elim (behind needle s) [
  | none ↦ slice_end none
  | some after_key ↦ found_slice after_key (object_behind after_key)
]

-- The loop on fuel; `none` where the fuel runs out.
unfoldable pub object_slice_from : ℕ → Bytes → Bytes → Option (Option Bytes)
object_slice_from zero needle s = none
object_slice_from (suc fuel) needle s = elim (slice_round needle s) [
  | slice_end result ↦ some result
  | slice_next rest ↦ object_slice_from fuel needle rest
]

-- `extractJsonObjectSlice`
unfoldable pub extract_json_object_slice : Bytes → Bytes → Option Bytes
extract_json_object_slice json key =
    run_or none (object_slice_from (suc (length json)) (quoted key) json)

abbrev pub is_blank : ℕ → Bool
is_blank c = c == b' ' || c == b'\t' || c == b'\n' || c == b'\r'

abbrev pub is_blank_or_comma : ℕ → Bool
is_blank_or_comma c = is_blank c || c == b','

-- The outcome of a round of the loop of `extractStringMapFromObject`: the loop ends, or it goes on
-- from a text, each with the pair that was read, if one was.
pub data Round : Type 0 where
  stop : Option (Bytes × Bytes) → Round
  again : Option (Bytes × Bytes) → Bytes → Round

-- A value that is no string is skipped up to the next comma or brace.
unfoldable pub skip_value : Bytes → Round
skip_value after_colon = elim (skip_while (λ c. not (c == b',' || c == b'}')) after_colon) [
  | [] ↦ stop none
  | c ∷ s ↦ again none s
]

-- A string value, and what separates it from the next key.
unfoldable pub take_value : Bytes → Bytes → Round
take_value key value_text =
    let read = read_string false value_text in
    let pair : Option (Bytes × Bytes) = if is_empty key then none else some (key, read.0) in
    elim (skip_while is_blank_or_comma (drop 1 read.1)) [
      | [] ↦ stop pair
      | c ∷ s ↦ if c == b'}' then stop pair else again pair (c ∷ s)
    ]

unfoldable pub map_round : Bytes → Round
map_round s =
    let found : Option Round = do
      key_quote ← split_at b'"' s
      key_end ← split_at b'"' key_quote.1
      colon ← split_at b':' key_end.1
      value_quote ← split_at b'"' colon.1
      some (
          if is_empty (trim value_quote.0)
          then take_value key_end.0 value_quote.1
          else skip_value colon.1)
    in elim found [ none ↦ stop none | some round ↦ round ]

abbrev pub push_pair : Option (Bytes × Bytes) → List (Bytes × Bytes) → List (Bytes × Bytes)
push_pair none pairs = pairs
push_pair (some p) pairs = p ∷ pairs

-- The loop on fuel; `none` where the fuel runs out.
unfoldable pub map_from : ℕ → Bytes → Option (List (Bytes × Bytes))
map_from zero s = none
map_from (suc fuel) s = elim (map_round s) [
  | stop pair ↦ some (push_pair pair [])
  | again pair rest ↦ do pairs ← map_from fuel rest; some (push_pair pair pairs)
]

-- `extractStringMapFromObject`; `none` where the text is no object.
unfoldable pub extract_string_map_from_object : Bytes → Option (List (Bytes × Bytes))
extract_string_map_from_object [] = none
extract_string_map_from_object (c ∷ s) =
    if c == b'{' then some (run_or [] (map_from (suc (length s)) s)) else none

-- `extractMetricLabels`
unfoldable pub extract_metric_labels : Bytes → Option (List (Bytes × Bytes))
extract_metric_labels json = elim (extract_json_object_slice json (codes "metric_labels")) [
  | none ↦ some []
  | some object ↦ extract_string_map_from_object object
]

-- What stands behind the colon that follows the first occurrence of the key.
unfoldable pub value_text : Bytes → Bytes → Option Bytes
value_text json key = do
  after_key ← behind (quoted key) json
  colon ← split_at b':' after_key
  some colon.1

-- `extractJsonBoolValue`
unfoldable pub extract_json_bool_value : Bytes → Bytes → Bool → Bool
extract_json_bool_value json key default_value = elim (value_text json key) [
  | none ↦ default_value
  | some text ↦
      let tail = trim text in
      if starts_with (codes "true") tail
      then true
      else if starts_with (codes "false") tail
      then false
      else default_value
]

abbrev pub in_int : Bool → ℕ → Option ℤ
in_int false v = if ltb v (2 ^ 31) then some (pos v) else none
in_int true zero = some (pos 0)
in_int true (suc v) = if ltb v (2 ^ 31) then some (negsuc v) else none

-- `std::stoi`, where it does not throw
abbrev pub stoi : Bytes → Option ℤ
stoi tail = do number ← leading_number tail; in_int number.0 number.1

abbrev pub is_numeral : Bytes → Bool
is_numeral [] = false
is_numeral (c ∷ s) = is_digit c || c == b'-'

-- `extractJsonIntValue`
unfoldable pub extract_json_int_value : Bytes → Bytes → ℤ → ℤ
extract_json_int_value json key default_value =
    let number : Option ℤ = do
      text ← value_text json key
      if is_numeral (trim text) then stoi (trim text) else none
    in elim number [ none ↦ default_value | some v ↦ v ]

-- `extractJsonStringValue`: the first string behind the colon, and the empty text where there is none.
unfoldable pub extract_json_string_value : Bytes → Bytes → Bytes
extract_json_string_value json key =
    let text : Option Bytes = do
      value ← value_text json key
      quote ← split_at b'"' value
      some (read_string false quote.1).0
    in elim text [ none ↦ [] | some s ↦ s ]

-- `extractJsonNumberValue`. `strtod` is the C library's, with `none` where nothing is converted.
module _ (f : Floats) (strtod : Bytes → Option f.Double) where
  unfoldable pub extract_json_number_value : Bytes → Bytes → f.Double → f.Double
  extract_json_number_value json key default_value =
      let as_str = extract_json_string_value json key in
      let bare : Option f.Double = do
        text ← value_text json key
        if is_empty (trim text) then none else strtod (trim text)
      in let fallback : f.Double = elim bare [ none ↦ default_value | some v ↦ v ] in
        let quoted_number : Option f.Double = if is_empty as_str then none else strtod as_str in
        elim quoted_number [ none ↦ fallback | some v ↦ v ]
