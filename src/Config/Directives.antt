-- ===== src/Config/Directives.antt =====
-- src/waf_config.cc: how the directives of a profile are read, from a JSON array or from compressed
-- text. zlib is a parameter.
pub mod Fuel
pub mod Lines
use modsecurity_proxy_wasm.Base.{
  ℕ, suc, zero, ◌+◌, ◌*◌, ◌-◌, Bool, true, false, not, ◌||◌, List, [], ◌∷◌, ◌++◌, Option, none,
  some, if◌then◌else◌, leb, ltb, ◌==◌, length, drop, ◌>>=◌, run_or,
}
use modsecurity_proxy_wasm.Text.{
  Bytes, codes, is_empty, equal, starts_with, trim, search, split_at, skip_while,
}
use modsecurity_proxy_wasm.Escape.{read_string}
use modsecurity_proxy_wasm.Config.Base64.{base64_decode}
use modsecurity_proxy_wasm.Config.Json.{
  quoted, json_array, is_blank, is_blank_or_comma, extract_json_string_value,
}

-- What zlib does with a text: whether `inflateInit2` succeeds, the output of each call of `inflate`
-- that returns Z_OK, in order, and the output of the call behind them, if that one returns
-- Z_STREAM_END and no error. The output of a call fits the buffer of 64 KiB.
pub record Inflate : Type 0 where
  pub ready : Bytes → Bool
  pub outputs : Bytes → List Bytes
  pub last : Bytes → Option Bytes

abbrev pub max_inflated_directives_bytes : ℕ
max_inflated_directives_bytes = 32 * 1024 * 1024

-- The text, unless the number is above the limit.
abbrev pub within : ℕ → ℕ → Bytes → Option Bytes
within limit n text = if ltb limit n then none else some text

-- `plain.append`, unless the text becomes too long
abbrev pub append_bounded : Bytes → Bytes → Option Bytes
append_bounded plain out =
    within max_inflated_directives_bytes (length plain + length out) (plain ++ out)

-- The loop of `gzipInflate` over the calls that return Z_OK.
unfoldable pub inflate_from : Bytes → List Bytes → Option Bytes
inflate_from plain [] = some plain
inflate_from plain (out ∷ outs) = do plain' ← append_bounded plain out; inflate_from plain' outs

module _ (z : Inflate) where
  -- `gzipInflate`; `none` stands for an error.
  unfoldable pub gzip_inflate : Bytes → Option Bytes
  gzip_inflate compressed = if is_empty compressed || not (z.ready compressed) then none else do
    plain ← inflate_from [] (z.outputs compressed)
    out ← z.last compressed
    append_bounded plain out

-- The text up to the first newline, and the other lines.
unfoldable pub split_lines : Bytes → Bytes × List Bytes
split_lines [] = ([], [])
split_lines (c ∷ s) =
    let (line, lines) = split_lines s in
    if c == b'\n' then ([], line ∷ lines) else (c ∷ line, lines)

unfoldable pub keep_lines : List Bytes → List Bytes
keep_lines [] = []
keep_lines (line ∷ lines) =
    let rest = keep_lines lines in if is_empty (trim line) then rest else trim line ∷ rest

-- `splitDirectiveLines`
unfoldable pub split_directive_lines : Bytes → List Bytes
split_directive_lines text = let (line, lines) = split_lines text in keep_lines (line ∷ lines)

-- `findDirectivesMapProfileValue`; the search for the profile begins at the key of the map.
unfoldable pub find_directives_map_profile_value : Bytes → Bytes → Option Bytes
find_directives_map_profile_value json profile = do
  from_map ← search (codes "\"directives_map\"") json
  from_profile ← search (quoted profile) from_map
  colon ← split_at b':' (drop (length (quoted profile)) from_profile)
  elim (skip_while is_blank colon.1) [ [] ↦ none | c ∷ s ↦ some (c ∷ s) ]

-- What a round of the loop of `extractDirectiveArray` reads, and what is left: the number of bytes in
-- front of the end of the array, and the text.
pub data ItemRound : Type 0 where
  items_end : List Bytes → ItemRound
  items_next : List Bytes → ℕ → Bytes → ItemRound

abbrev read_items : Bytes → List Bytes
read_items [] = []
read_items (c ∷ s) = (c ∷ s) ∷ []

unfoldable pub item_round : ℕ → Bytes → ItemRound
item_round left s = elim (split_at b'"' s) [
  | none ↦ items_end []
  | some (skipped, text) ↦
      let (item, rest) = read_string false text in
      let next = skip_while is_blank_or_comma (drop 1 rest) in
      let left' = left - (length s - length next) in
      let ends = is_empty next || left' == 0 || starts_with (codes "]") next in
      if leb left (length skipped)
      then items_end []
      else if ends
      then items_end (read_items item)
      else items_next (read_items item) left' next
]

-- The loop on fuel; `none` where the fuel runs out.
unfoldable pub items_from : ℕ → ℕ → Bytes → Option (List Bytes)
items_from zero left s = none
items_from (suc fuel) left s = elim (item_round left s) [
  | items_end items ↦ some items
  | items_next items left' rest ↦ do later ← items_from fuel left' rest; some (items ++ later)
]

-- `extractDirectiveArray`
unfoldable pub extract_directive_array : Bytes → Bytes → List Bytes
extract_directive_array json profile =
    let found : Option (List Bytes) = do
      value ← find_directives_map_profile_value json profile
      array ← json_array value
      items_from (suc (length value)) (length array.0 - 2) (drop 1 value)
    in run_or [] found

-- `extractDirectiveMapString`
unfoldable pub extract_directive_map_string : Bytes → Bytes → Bytes
extract_directive_map_string json profile =
    let found : Option Bytes = do
      value ← find_directives_map_profile_value json profile
      if starts_with (codes "\"") value then some (read_string false (drop 1 value)).0 else none
    in elim found [ none ↦ [] | some text ↦ text ]

abbrev unless_empty {ℓ} : {A : Type ℓ} → List A → Option (List A)
unless_empty [] = none
unless_empty (x ∷ xs) = some (x ∷ xs)

-- `loadDirectiveList`; an error stands as `none`.
module _ (z : Inflate) where
  unfoldable pub load_directive_list : Bytes → Bytes → Option (List Bytes)
  load_directive_list json profile =
      let encoding = extract_json_string_value json (codes "directives_encoding") in
      let text = extract_directive_map_string json profile in
      let compressed =
        if equal encoding (codes "gzip+base64") then base64_decode text else some text in
      let inflated : Option (List Bytes) = do
        present ← unless_empty text
        bytes ← compressed
        plain ← gzip_inflate z bytes
        unless_empty (split_directive_lines plain)
      in if equal encoding (codes "gzip+base64") || equal encoding (codes "gzip")
        then inflated
        else unless_empty (extract_directive_array json profile)
