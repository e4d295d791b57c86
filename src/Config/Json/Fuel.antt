-- ===== src/Config/Json/Fuel.antt =====
-- src/waf_config.cc: how much text each round of the loops over JSON objects leaves.
use mathlib.Core.Path.{subst}
use modsecurity_proxy_wasm.Base.{
  ℕ, zero, suc, ◌<◌, ◌≤◌, ◌≡◌, refl, sym, ap, ◌∙◌, false, not, ◌||◌, [], ◌∷◌, ◌++◌, List, Option,
  none, some, inl, inr, ◌⊎◌, arith, absurd, length, drop, length-drop, Option-cases, if-ind, ◌>>=◌,
  ◌==◌, run_or,
}
use modsecurity_proxy_wasm.Text.{Bytes, is_empty, trim, behind, split_at}
use modsecurity_proxy_wasm.Text.Lengths.{
  behind-some, split_at-some, length-skip_while, length-read_string,
}
use modsecurity_proxy_wasm.Escape.{read_string}
use modsecurity_proxy_wasm.Config.Json.{
  quoted, SliceRound, slice_end, slice_next, slice_round, object_behind, object_slice_from,
  json_object, extract_json_object_slice, Round, stop, again, skip_value, take_value, map_round,
  push_pair, map_from, extract_string_map_from_object, is_blank_or_comma,
}

-- One more than the length of the text from which the loop goes on.
abbrev slice_left : SliceRound → ℕ
slice_left (slice_end result) = 0
slice_left (slice_next s) = suc (length s)

slice_left-slice_round : (c : ℕ) (p s : Bytes) → slice_left (slice_round (c ∷ p) s) ≤ length s
unfolding slice_round
slice_left-slice_round c p s = elim (Option-cases (behind (c ∷ p) s)) [
  | inl e ↦ rw (e, slice_round) (omega arith)
  | inr (after_key, e) ↦
      let shorter = behind-some c p s e in
      elim (Option-cases (object_behind after_key)) [
        | inl f ↦ rw (e, f, slice_round) (omega arith)
        | inr ((between, text), f) ↦
            rw (e, f, slice_round)
              (if-ind (λ r. slice_left r ≤ length s) (is_empty between)
                {x = slice_end (do object ← json_object text; some object.0)}
                {y = slice_next after_key} (λ _. omega arith) (λ _. omega (arith, shorter)))
      ]
]

SliceRound-cases :
    (r : SliceRound)
    → ((result : Option Bytes) × (r ≡ slice_end result)) ⊎ ((s : Bytes) × (r ≡ slice_next s))
SliceRound-cases (slice_end result) = inl (result, refl)
SliceRound-cases (slice_next s) = inr (s, refl)

-- With fuel above the length of the text the loop ends, and with other such fuel in the same way.
object_slice_ends :
    (n m c : ℕ) (p s : Bytes)
    → length s < n
    → length s < m
    → (result : Option Bytes) × ((object_slice_from n (c ∷ p) s ≡ some result)
        × (object_slice_from m (c ∷ p) s ≡ some result))
unfolding object_slice_from
object_slice_ends zero m c p s lt lt' = absurd (omega (arith, lt))
object_slice_ends (suc n) zero c p s lt lt' = absurd (omega (arith, lt'))
object_slice_ends (suc n) (suc m) c p s lt lt' = elim (SliceRound-cases (slice_round (c ∷ p) s)) [
  | inl (result, e) ↦ rw (e, object_slice_from) (result, (refl, refl))
  | inr (rest, e) ↦
      let shorter : suc (length rest) ≤ length s =
        subst (λ r. slice_left r ≤ length s) e (slice_left-slice_round c p s) in
      rw (e, object_slice_from)
        (object_slice_ends n m c p rest (omega (arith, lt, shorter)) (omega (arith, lt', shorter)))
]

-- One more than the length of the text from which the loop goes on.
abbrev next_length : Round → ℕ
next_length (stop pair) = 0
next_length (again pair s) = suc (length s)

next_length-skip_value : (s : Bytes) → next_length (skip_value s) ≤ length s
unfolding skip_value
next_length-skip_value s = ground (arith, length-skip_while (λ c. not (c == b',' || c == b'}')) s)

next_length-take_value : (key s : Bytes) → next_length (take_value key s) ≤ length s
unfolding take_value
next_length-take_value key s =
    let rest = (read_string false s).1 in
    ground (
      arith,
      length-skip_while is_blank_or_comma (drop 1 rest),
      length-drop 1 rest,
      length-read_string false s,
    )

next_length-map_round : (s : Bytes) → next_length (map_round s) ≤ length s
unfolding map_round
next_length-map_round s = elim (Option-cases (split_at b'"' s)) [
  | inl e ↦ rw (e, map_round) (omega arith)
  | inr (key_quote, e) ↦ elim (Option-cases (split_at b'"' key_quote.1)) [
    | inl f ↦ rw (e, f, map_round) (omega arith)
    | inr (key_end, f) ↦ elim (Option-cases (split_at b':' key_end.1)) [
      | inl g ↦ rw (e, f, g, map_round) (omega arith)
      | inr (colon, g) ↦ elim (Option-cases (split_at b'"' colon.1)) [
        | inl h ↦ rw (e, f, g, h, map_round) (omega arith)
        | inr (value_quote, h) ↦
            rw (e, f, g, h, map_round)
              (if-ind (λ r. next_length r ≤ length s) (is_empty (trim value_quote.0))
                {x = take_value key_end.0 value_quote.1} {y = skip_value colon.1}
                (λ _. omega (
                  arith,
                  next_length-take_value key_end.0 value_quote.1,
                  split_at-some b'"' s e,
                  split_at-some b'"' key_quote.1 f,
                  split_at-some b':' key_end.1 g,
                  split_at-some b'"' colon.1 h,
                ))
                (λ _. omega (
                  arith,
                  next_length-skip_value colon.1,
                  split_at-some b'"' s e,
                  split_at-some b'"' key_quote.1 f,
                  split_at-some b':' key_end.1 g,
                )))
      ]
    ]
  ]
]

Round-cases :
    (r : Round)
    → ((pair : Option (Bytes × Bytes)) × (r ≡ stop pair))
      ⊎ ((pair : Option (Bytes × Bytes)) × ((s : Bytes) × (r ≡ again pair s)))
Round-cases (stop pair) = inl (pair, refl)
Round-cases (again pair s) = inr (pair, (s, refl))

map_ends :
    (n m : ℕ) (s : Bytes)
    → length s < n
    → length s < m
    → (pairs : List (Bytes × Bytes)) × ((map_from n s ≡ some pairs) × (map_from m s ≡ some pairs))
unfolding map_from
map_ends zero m s lt lt' = absurd (omega (arith, lt))
map_ends (suc n) zero s lt lt' = absurd (omega (arith, lt'))
map_ends (suc n) (suc m) s lt lt' = elim (Round-cases (map_round s)) [
  | inl (pair, e) ↦ rw (e, map_from) (push_pair pair [], (refl, refl))
  | inr (pair, (rest, e)) ↦
      let shorter : suc (length rest) ≤ length s =
        subst (λ r. next_length r ≤ length s) e (next_length-map_round s) in
      let (pairs, (f, g)) =
        map_ends n m rest (omega (arith, lt, shorter)) (omega (arith, lt', shorter)) in
      rw (e, map_from)
        (
          push_pair pair pairs,
          (
            ap (λ o. o >>= (λ x. some (push_pair pair x))) f,
            ap (λ o. o >>= (λ x. some (push_pair pair x))) g,
          ),
        )
]

-- The loop of `extractJsonObjectSlice` ends: with any number of rounds above the length of the text
-- it comes to a result within them, the one that the function gives. A run that is cut off has no
-- result.
pub extract_json_object_slice_ends :
    (n : ℕ) (json key : Bytes)
    → length json < n
    → object_slice_from n (quoted key) json ≡ some (extract_json_object_slice json key)
unfolding extract_json_object_slice
extract_json_object_slice_ends n json key lt =
    let (result, (e, f)) =
      object_slice_ends n (suc (length json)) b'"' (key ++ b'"' ∷ []) json lt (omega arith) in
    e ∙ ap {B = Option (Option Bytes)} (λ o. some (run_or none o)) (sym f)

-- The loop of `extractStringMapFromObject` ends: with any number of rounds above the length of the
-- text it comes to pairs within them, the ones that the function gives. A run that is cut off has no
-- result.
pub extract_string_map_from_object_ends :
    (n : ℕ) (s : Bytes)
    → length s < n
    → (pairs : List (Bytes × Bytes)) × ((map_from n s ≡ some pairs)
        × (extract_string_map_from_object (b'{' ∷ s) ≡ some pairs))
unfolding extract_string_map_from_object
extract_string_map_from_object_ends n s lt =
    let (pairs, (e, f)) = map_ends n (suc (length s)) s lt (omega arith) in
    (pairs, (e, ap {B = Option (List (Bytes × Bytes))} (λ o. some (run_or [] o)) f))
