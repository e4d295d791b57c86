-- ===== src/Config/DataFiles/Fuel.antt =====
-- src/waf_config.cc: how much text each round of the loop of `extractDataFilesObject` leaves.
use mathlib.Core.Path.{subst}
use modsecurity_proxy_wasm.Base.{
  ℕ, zero, suc, ◌<◌, ◌≤◌, ◌≡◌, refl, sym, ap, ◌∙◌, ◌||◌, [], ◌∷◌, Option, none, some, inl, inr, ◌⊎◌,
  arith, absurd, length, Option-cases, Bool-cases, >>=-ind, if-ind, ◌==◌, run_or,
}
use modsecurity_proxy_wasm.Text.{Bytes, behind, split_at, skip_while, starts_with, codes}
use modsecurity_proxy_wasm.Text.Lengths.{length-skip_while, rest_length}
use modsecurity_proxy_wasm.Config.Json.{is_blank_or_comma}
use modsecurity_proxy_wasm.Config.DataFiles.{
  Files, raw_key, raw_value, open_quote, entry, FilesRound, files_end, files_next, after_entry,
  files_round, entries_from, extract_data_files_object,
}

-- Behind a closing quote there is less text.
rest_length-raw_key : (s : Bytes) → rest_length (raw_key s) ≤ length s
unfolding raw_key
rest_length-raw_key [] = omega arith
rest_length-raw_key (c ∷ []) = ground arith
rest_length-raw_key (c ∷ d ∷ s) = elim (Bool-cases (c == b'"')) [
  | inl e ↦ rw (e, raw_key) (omega arith)
  | inr e ↦ elim (Bool-cases (c == b'\\')) [
    | inl f ↦
        rw (e, f, raw_key)
          (>>=-ind (λ o. rest_length o ≤ suc (suc (length s))) (raw_key s) (omega arith)
            λ found g. omega (arith, rest_length-raw_key s, ap rest_length g))
    | inr f ↦
        rw (e, f, raw_key)
          (>>=-ind (λ o. rest_length o ≤ suc (suc (length s))) (raw_key (d ∷ s)) (omega arith)
            λ found g. omega (arith, rest_length-raw_key (d ∷ s), ap rest_length g))
  ]
]

rest_length-raw_value : (s : Bytes) → rest_length (raw_value s) ≤ length s
unfolding raw_value
rest_length-raw_value [] = omega arith
rest_length-raw_value (c ∷ []) = ground arith
rest_length-raw_value (c ∷ d ∷ s) = elim (Bool-cases (c == b'"')) [
  | inl e ↦ rw (e, raw_value) (omega arith)
  | inr e ↦ elim (Bool-cases (c == b'\\')) [
    | inl f ↦
        rw (e, f, raw_value)
          (>>=-ind (λ o. rest_length o ≤ suc (suc (length s))) (raw_value s) (omega arith)
            λ found g. omega (arith, rest_length-raw_value s, ap rest_length g))
    | inr f ↦
        rw (e, f, raw_value)
          (>>=-ind (λ o. rest_length o ≤ suc (suc (length s))) (raw_value (d ∷ s)) (omega arith)
            λ found g. omega (arith, rest_length-raw_value (d ∷ s), ap rest_length g))
  ]
]

open_quote-some : (s : Bytes) {t : Bytes} → open_quote s ≡ some t → length t < length s
open_quote-some [] e = ground arith
open_quote-some (c ∷ s) e = ground arith

raw_key-some : (s : Bytes) {k : Bytes × Bytes} → raw_key s ≡ some k → length k.1 < length s
raw_key-some s e = ground (arith, rest_length-raw_key s)

raw_value-some : (s : Bytes) {k : Bytes × Bytes} → raw_value s ≡ some k → length k.1 < length s
raw_value-some s e = ground (arith, rest_length-raw_value s)

abbrev entry_length : Option ((Bytes × Bytes) × Bytes) → ℕ
entry_length none = 0
entry_length (some e) = suc (length e.1)

entry_left : (s : Bytes) → entry_length (entry s) ≤ length s
unfolding entry
entry_left s =
    let Less : Option ((Bytes × Bytes) × Bytes) → Type 0 = λ o. entry_length o ≤ length s in
    >>=-ind Less (open_quote s) (omega arith) λ key_text a.
      >>=-ind Less (raw_key key_text) (omega arith) λ key b.
        let between = skip_while (λ c. c == b' ' || c == b'\t' || c == b':') key.1 in
        >>=-ind Less (open_quote between) (omega arith) λ value_text c.
          >>=-ind Less (raw_value value_text) (omega arith) λ value d. omega (
            arith,
            open_quote-some s a,
            raw_key-some key_text b,
            length-skip_while (λ c. c == b' ' || c == b'\t' || c == b':') key.1,
            open_quote-some between c,
            raw_value-some value_text d,
          )

entry-some : (s : Bytes) {e : (Bytes × Bytes) × Bytes} → entry s ≡ some e → length e.1 < length s
entry-some s h = omega (arith, entry_left s, ap entry_length h)

-- One more than the length of the text from which the loop goes on.
abbrev files_left : FilesRound → ℕ
files_left (files_end result) = 0
files_left (files_next encoded s) = suc (length s)

files_left-files_round :
    (encoded : Files) (s : Bytes) → files_left (files_round encoded s) ≤ length s
unfolding files_round
files_left-files_round encoded s =
    let next = skip_while is_blank_or_comma s in
    if-ind (λ r. files_left r ≤ length s) (starts_with (codes "}") next)
      {x = files_end (some encoded)} {y = after_entry encoded (entry next)} (λ _. omega arith)
      (λ _. elim (Option-cases (entry next)) [
        | inl e ↦ rw e (omega arith)
        | inr (((name, text), rest), e) ↦
            rw e (omega (arith, entry-some next e, length-skip_while is_blank_or_comma s))
      ])

FilesRound-cases :
    (r : FilesRound)
    → ((result : Option Files) × (r ≡ files_end result))
      ⊎ ((encoded : Files) × ((s : Bytes) × (r ≡ files_next encoded s)))
FilesRound-cases (files_end result) = inl (result, refl)
FilesRound-cases (files_next encoded s) = inr (encoded, (s, refl))

entries_ends :
    (n m : ℕ) (encoded : Files) (s : Bytes)
    → length s < n
    → length s < m
    → (result : Option Files) × ((entries_from n encoded s ≡ some result)
        × (entries_from m encoded s ≡ some result))
unfolding entries_from
entries_ends zero m encoded s lt lt' = absurd (omega (arith, lt))
entries_ends (suc n) zero encoded s lt lt' = absurd (omega (arith, lt'))
entries_ends (suc n) (suc m) encoded s lt lt' = elim (FilesRound-cases (files_round encoded s)) [
  | inl (result, e) ↦ rw (e, entries_from) (result, (refl, refl))
  | inr (encoded', (rest, e)) ↦
      let shorter : suc (length rest) ≤ length s =
        subst (λ r. files_left r ≤ length s) e (files_left-files_round encoded s) in
      rw (e, entries_from)
        (entries_ends n m encoded' rest (omega (arith, lt, shorter)) (omega (arith, lt', shorter)))
]

-- The loop of `extractDataFilesObject` ends: where the configuration has the key and a brace behind
-- it, with any number of rounds above the length of the text behind the brace it comes to files or to
-- an error within them, as the function does. A run that is cut off comes to neither.
pub extract_data_files_object_ends :
    (n : ℕ) (json after_key : Bytes) (brace : Bytes × Bytes)
    → behind (codes "\"data_files\"") json ≡ some after_key
    → split_at b'{' after_key ≡ some brace
    → length brace.1 < n
    → entries_from n [] brace.1 ≡ some (extract_data_files_object json)
unfolding extract_data_files_object
extract_data_files_object_ends n json after_key brace e f lt =
    let (result, (g, h)) = entries_ends n (suc (length brace.1)) [] brace.1 lt (omega arith) in
    rw (e, f, extract_data_files_object)
      (g ∙ ap {B = Option (Option Files)} (λ o. some (run_or none o)) (sym h))
