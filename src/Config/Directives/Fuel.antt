-- ===== src/Config/Directives/Fuel.antt =====
-- src/waf_config.cc: how much text each round of the loop of `extractDirectiveArray` leaves.
use mathlib.Core.Path.{subst}
use modsecurity_proxy_wasm.Base.{
  ℕ, zero, suc, ◌-◌, ◌<◌, ◌≤◌, ◌≡◌, refl, sym, ap, ◌∙◌, false, ◌||◌, List, [], ◌++◌, Option, some,
  inl, inr, ◌⊎◌, if◌then◌else◌, if-ind, absurd, length, leb, ◌==◌, drop, length-drop, Option-cases,
  arith, ◌>>=◌, run_or,
}
use modsecurity_proxy_wasm.Text.{Bytes, is_empty, split_at, skip_while, starts_with, codes}
use modsecurity_proxy_wasm.Text.Lengths.{split_at-some, length-skip_while, length-read_string}
use modsecurity_proxy_wasm.Escape.{read_string}
use modsecurity_proxy_wasm.Config.Json.{is_blank_or_comma, json_array}
use modsecurity_proxy_wasm.Config.Directives.{
  find_directives_map_profile_value, ItemRound, items_end, items_next, read_items, item_round,
  items_from, extract_directive_array,
}

-- One more than the length of the text from which the loop goes on.
abbrev items_left : ItemRound → ℕ
items_left (items_end items) = 0
items_left (items_next items left s) = suc (length s)

items_left-item_round : (left : ℕ) (s : Bytes) → items_left (item_round left s) ≤ length s
unfolding item_round
items_left-item_round left s = elim (Option-cases (split_at b'"' s)) [
  | inl e ↦ rw (e, item_round) (omega arith)
  | inr ((skipped, text), e) ↦
      let rest = (read_string false text).1 in
      let item = (read_string false text).0 in
      let next = skip_while is_blank_or_comma (drop 1 rest) in
      let left' = left - (length s - length next) in
      let ends = is_empty next || left' == 0 || starts_with (codes "]") next in
      let shorter : length next < length s = omega (
        arith,
        split_at-some b'"' s e,
        length-read_string false text,
        length-drop 1 rest,
        length-skip_while is_blank_or_comma (drop 1 rest),
      ) in
      rw (e, item_round)
        (if-ind (λ r. items_left r ≤ length s) (leb left (length skipped)) {x = items_end []}
          {y = if ends
            then items_end (read_items item)
            else items_next (read_items item) left' next}
          (λ _. omega arith)
          (λ _.
            if-ind (λ r. items_left r ≤ length s) ends {x = items_end (read_items item)}
              {y = items_next (read_items item) left' next} (λ _. omega arith)
              (λ _. omega (arith, shorter))))
]

ItemRound-cases :
    (r : ItemRound)
    → ((items : List Bytes) × (r ≡ items_end items))
      ⊎ ((items : List Bytes) × ((left : ℕ) × ((s : Bytes) × (r ≡ items_next items left s))))
ItemRound-cases (items_end items) = inl (items, refl)
ItemRound-cases (items_next items left s) = inr (items, (left, (s, refl)))

items_ends :
    (n m left : ℕ) (s : Bytes)
    → length s < n
    → length s < m
    → (items : List Bytes) × ((items_from n left s ≡ some items)
        × (items_from m left s ≡ some items))
unfolding items_from
items_ends zero m left s lt lt' = absurd (omega (arith, lt))
items_ends (suc n) zero left s lt lt' = absurd (omega (arith, lt'))
items_ends (suc n) (suc m) left s lt lt' = elim (ItemRound-cases (item_round left s)) [
  | inl (items, e) ↦ rw (e, items_from) (items, (refl, refl))
  | inr (items, (left', (rest, e))) ↦
      let shorter : suc (length rest) ≤ length s =
        subst (λ r. items_left r ≤ length s) e (items_left-item_round left s) in
      let (later, (f, g)) =
        items_ends n m left' rest (omega (arith, lt, shorter)) (omega (arith, lt', shorter)) in
      rw (e, items_from)
        (
          items ++ later,
          (ap (λ o. o >>= (λ x. some (items ++ x))) f, ap (λ o. o >>= (λ x. some (items ++ x))) g),
        )
]

-- The loop of `extractDirectiveArray` ends: where the profile has an array, with any number of rounds
-- above the length of the text from there on it comes to directives within them, the ones that the
-- function gives. A run that is cut off has none.
pub extract_directive_array_ends :
    (n : ℕ) (json profile value : Bytes) (array : Bytes × Bytes)
    → find_directives_map_profile_value json profile ≡ some value
    → json_array value ≡ some array
    → length value < n
    → items_from n (length array.0 - 2) (drop 1 value) ≡ some (extract_directive_array json profile)
unfolding extract_directive_array
extract_directive_array_ends n json profile value array e f lt =
    let (items, (g, h)) =
      items_ends n (suc (length value)) (length array.0 - 2) (drop 1 value)
        (omega (arith, lt, length-drop 1 value)) (omega (arith, length-drop 1 value)) in
    rw (e, f, extract_directive_array)
      (g ∙ ap {B = Option (List Bytes)} (λ o. some (run_or [] o)) (sym h))
