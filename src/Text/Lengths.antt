-- ===== src/Text/Lengths.antt =====
-- How much of a text the searches of src/waf_config.cc leave.
use modsecurity_proxy_wasm.Base.{
  ℕ, suc, ◌≤◌, ◌<◌, ◌≡◌, Bool, true, false, [], ◌∷◌, Option, none, some, inl, inr, arith, if-ind,
  length, length-drop, Option-cases, ◌==◌,
}
use modsecurity_proxy_wasm.Escape.{read_string}
use modsecurity_proxy_wasm.Text.{Bytes, is_empty, starts_with, search, behind, split_at, skip_while}

-- The length of a text found, and of the text behind a character found, with that character.
abbrev pub found_length : Option Bytes → ℕ
found_length none = 0
found_length (some t) = length t

abbrev pub rest_length : Option (Bytes × Bytes) → ℕ
rest_length none = 0
rest_length (some (x, y)) = suc (length y)

found_length-search : (p s : Bytes) → found_length (search p s) ≤ length s
unfolding search
found_length-search p [] =
    if-ind (λ o. found_length o ≤ 0) (is_empty p) (λ _. omega arith) (λ _. omega arith)
found_length-search p (c ∷ s) =
    if-ind (λ o. found_length o ≤ suc (length s)) (starts_with p (c ∷ s)) (λ _. omega arith)
      (λ _. omega (arith, found_length-search p s))

rest_length-split_at : (b : ℕ) (s : Bytes) → rest_length (split_at b s) ≤ length s
unfolding split_at
rest_length-split_at b [] = omega arith
rest_length-split_at b (c ∷ s) =
    let rest : Option (Bytes × Bytes) = elim (split_at b s) [
      | none ↦ none
      | some (x, y) ↦ some (c ∷ x, y)
    ] in
    if-ind (λ o. rest_length o ≤ suc (length s)) (c == b) (λ _. omega arith)
      (λ _. ground (arith, rest_length-split_at b s))

-- Behind a key there is less text than there was, behind a character too, and skipping adds none.
pub behind-some :
    (c : ℕ) (p s : Bytes) {t : Bytes} → behind (c ∷ p) s ≡ some t → length t < length s
behind-some c p [] e = unfold search in ground arith
behind-some c p (d ∷ s) e = elim (Option-cases (search (c ∷ p) (d ∷ s))) [
  | inl n ↦ ground (arith, n)
  | inr (u, f) ↦
      ground (arith, f, found_length-search (c ∷ p) (d ∷ s), length-drop (length (c ∷ p)) u)
]

pub split_at-some :
    (b : ℕ) (s : Bytes) {x y : Bytes} → split_at b s ≡ some (x, y) → length y < length s
split_at-some b s e = ground (arith, rest_length-split_at b s)

pub length-skip_while : (test : ℕ → Bool) (s : Bytes) → length (skip_while test s) ≤ length s
unfolding skip_while
length-skip_while test [] = omega arith
length-skip_while test (c ∷ s) = ground (arith, length-skip_while test s)

pub length-read_string : (escape : Bool) (s : Bytes) → length (read_string escape s).1 ≤ length s
unfolding read_string
length-read_string escape [] = omega arith
length-read_string true (c ∷ s) = omega (arith, length-read_string false s)
length-read_string false (c ∷ s) =
    let rest = read_string false s in
    if-ind (λ (o : Bytes × Bytes). length o.1 ≤ suc (length s)) (c == b'\\')
      {x = read_string true s} (λ _. omega (arith, length-read_string true s))
      (λ _.
        if-ind (λ (o : Bytes × Bytes). length o.1 ≤ suc (length s)) (c == b'"') {x = ([], c ∷ s)}
          {y = (c ∷ rest.0, rest.1)} (λ _. omega arith)
          (λ _. omega (arith, length-read_string false s)))
