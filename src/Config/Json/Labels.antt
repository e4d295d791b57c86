-- ===== src/Config/Json/Labels.antt =====
-- The metric labels, printed as a JSON object and read again.
use modsecurity_proxy_wasm.Base.{
  ℕ, zero, suc, ◌<◌, ◌≤◌, ◌≡◌, refl, ap, false, List, [], ◌∷◌, ◌++◌, some, All, arith, absurd,
  length, length-append, ◌==◌, ◌>>=◌, run_or, Option,
}
use modsecurity_proxy_wasm.Text.{Bytes, is_empty, trim_start, trim_end, split_at, skip_while}
use modsecurity_proxy_wasm.Escape.{escape_byte, json_escape}
use modsecurity_proxy_wasm.Text.Laws.{Lacks, split_at-Lacks}
use modsecurity_proxy_wasm.Escape.Laws.{IsText, json_escape_closes, read_string-json_escape}
use modsecurity_proxy_wasm.Config.Json.{
  Round, stop, again, take_value, map_round, map_from, extract_string_map_from_object,
}

abbrev separated : List (Bytes × Bytes) → Bytes → Bytes
separated [] text = text
separated (p ∷ ps) text = b',' ∷ text

-- The pairs of an object behind its opening brace.
abbrev pub pairs_text : List (Bytes × Bytes) → Bytes
pairs_text [] = b'}' ∷ []
pairs_text ((k, v) ∷ pairs) =
    b'"'
    ∷ (json_escape k
        ++ b'"' ∷ b':' ∷ b'"' ∷ (json_escape v ++ b'"' ∷ separated pairs (pairs_text pairs)))

abbrev tail_text : List (Bytes × Bytes) → Bytes
tail_text pairs = separated pairs (pairs_text pairs)

-- A byte that stands for itself in a JSON string.
abbrev pub IsPlain : ℕ → Type 0
IsPlain c = (0x20 ≤ c) × (((c == b'"') ≡ false) × ((c == b'\\') ≡ false))

-- A key that is not empty and whose bytes stand for themselves, and a value of bytes from 0x20 on,
-- newlines, carriage returns and tabs.
abbrev pub IsPair : Bytes × Bytes → Type 0
IsPair (k, v) = (is_empty k ≡ false) × (All IsPlain k × All IsText v)

escape_byte-IsPlain : (c : ℕ) → IsPlain c → escape_byte c ≡ c ∷ []
unfolding escape_byte
escape_byte-IsPlain c h = ground (arith, h.0, h.1.0, h.1.1)

json_escape-IsPlain : (k : Bytes) → All IsPlain k → json_escape k ≡ k
unfolding json_escape
json_escape-IsPlain [] h = refl
json_escape-IsPlain (c ∷ k) h = rw (escape_byte-IsPlain c h.0, json_escape-IsPlain k h.1) refl

Lacks-quote : (k : Bytes) → All IsPlain k → Lacks b'"' k
Lacks-quote [] h = tt
Lacks-quote (c ∷ k) h = (h.0.1.0, Lacks-quote k h.1)

-- The round that reads a pair.
abbrev read_pair : Bytes × Bytes → List (Bytes × Bytes) → Round
read_pair p [] = stop (some p)
read_pair p (q ∷ ps) = again (some p) (pairs_text (q ∷ ps))

take_value_text :
    (k v : Bytes) (ps : List (Bytes × Bytes))
    → IsPair (k, v)
    → take_value k (json_escape v ++ b'"' ∷ tail_text ps) ≡ read_pair (k, v) ps
unfolding take_value skip_while
take_value_text k v [] (full, (_, text)) =
    rw
      (
        json_escape_closes v (tail_text []),
        read_string-json_escape v (tail_text []) text,
        full,
        take_value,
      )
      refl
take_value_text k v (q ∷ ps) (full, (_, text)) =
    rw
      (
        json_escape_closes v (tail_text (q ∷ ps)),
        read_string-json_escape v (tail_text (q ∷ ps)) text,
        full,
        take_value,
      )
      refl

map_round_text :
    (k v : Bytes) (ps : List (Bytes × Bytes))
    → IsPair (k, v)
    → map_round (pairs_text ((k, v) ∷ ps)) ≡ read_pair (k, v) ps
unfolding map_round trim_start trim_end
map_round_text k v ps h =
    let value = json_escape v ++ b'"' ∷ tail_text ps in
    rw
      (
        json_escape-IsPlain k h.1.0,
        split_at-Lacks b'"' [] (k ++ b'"' ∷ b':' ∷ b'"' ∷ value) tt,
        split_at-Lacks b'"' k (b':' ∷ b'"' ∷ value) (Lacks-quote k h.1.0),
        split_at-Lacks b':' [] (b'"' ∷ value) tt,
        split_at-Lacks b'"' [] value tt,
        map_round,
      )
      (take_value_text k v ps h)

map_from_text :
    (n : ℕ) (pairs : List (Bytes × Bytes))
    → All IsPair pairs
    → length (pairs_text pairs) < n
    → map_from n (pairs_text pairs) ≡ some pairs
unfolding map_from
map_from_text zero pairs h lt = absurd (omega (arith, lt))
map_from_text (suc n) [] h lt = unfold map_round split_at in refl
map_from_text (suc n) ((k, v) ∷ []) h lt = rw (map_round_text k v [] h.0, map_from) refl
map_from_text (suc n) ((k, v) ∷ q ∷ ps) h lt =
    let value = json_escape v ++ b'"' ∷ tail_text (q ∷ ps) in
    let shorter : length (pairs_text (q ∷ ps)) < n = omega (
      arith,
      lt,
      length-append (json_escape k) (b'"' ∷ b':' ∷ b'"' ∷ value),
      length-append (json_escape v) (b'"' ∷ tail_text (q ∷ ps)),
    ) in
    rw (map_round_text k v (q ∷ ps) h.0, map_from)
      (ap (λ o. o >>= (λ pairs. some ((k, v) ∷ pairs))) (map_from_text n (q ∷ ps) h.1 shorter))

-- Labels with keys that are not empty and of bytes from 0x20 on without quotes and backslashes, and
-- with values of bytes from 0x20 on, newlines, carriage returns and tabs, printed as a JSON object
-- with keys and values escaped: `extractStringMapFromObject` reads the same labels from it, in their
-- order.
pub extract_string_map_from_object-pairs_text :
    (pairs : List (Bytes × Bytes))
    → All IsPair pairs
    → extract_string_map_from_object (b'{' ∷ pairs_text pairs) ≡ some pairs
unfolding extract_string_map_from_object
extract_string_map_from_object-pairs_text pairs h =
    ap {B = Option (List (Bytes × Bytes))} (λ o. some (run_or [] o))
      (map_from_text (suc (length (pairs_text pairs))) pairs h (omega arith))
