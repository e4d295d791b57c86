-- ===== src/Text/Laws.antt =====
-- Laws of the string operations.
use modsecurity_proxy_wasm.Base.{
  ℕ, ◌≡◌, refl, inl, inr, true, ◌||◌, [], ◌∷◌, ◌++◌, arith, All, some, false, ◌==◌, ==_refl,
  Bool-cases, Option-cases,
}
use modsecurity_proxy_wasm.Text.{Bytes, equal, starts_with, find_in, contains, split_at}

pub equal_refl : (s : Bytes) → equal s s ≡ true
unfolding equal
equal_refl [] = refl
equal_refl (c ∷ s) = rw (==_refl c) (equal_refl s)

pub starts_with_self : (p s : Bytes) → starts_with p (p ++ s) ≡ true
unfolding starts_with
starts_with_self [] s = refl
starts_with_self (c ∷ p) s = rw (==_refl c) (starts_with_self p s)

-- One step of the search.
pub contains-cons :
    (p : Bytes) (c : ℕ) (s : Bytes) → contains (c ∷ s) p ≡ (starts_with p (c ∷ s) || contains s p)
unfolding contains
contains-cons p c s = elim (Bool-cases (starts_with p (c ∷ s))) [
  | inl e ↦ rw (e, find_in, contains)
  | inr e ↦ elim (Option-cases (find_in p s)) [
    | inl n ↦ rw (e, n, find_in, contains)
    | inr (k, n) ↦ rw (e, n, find_in, contains)
  ]
]

pub contains_start : (p s : Bytes) → starts_with p s ≡ true → contains s p ≡ true
contains_start p (c ∷ s) h = rw (contains-cons p c s, h)
contains_start [] [] h = unfold contains in refl
contains_start (x ∷ p) [] h = unfold starts_with in cc

pub contains-append_left : (a s p : Bytes) → contains s p ≡ true → contains (a ++ s) p ≡ true
contains-append_left [] s p h = h
contains-append_left (c ∷ a) s p h =
    rw (contains-cons p c (a ++ s), contains-append_left a s p h) (ground arith)

-- Text is found wherever it stands.
pub contains_middle : (a p b : Bytes) → contains (a ++ (p ++ b)) p ≡ true
contains_middle a p b =
    contains-append_left a (p ++ b) p (contains_start p (p ++ b) (starts_with_self p b))

-- The byte does not occur in the text.
abbrev pub Lacks : ℕ → Bytes → Type 0
Lacks b s = All (λ c. (c == b) ≡ false) s

pub split_at-Lacks :
    (b : ℕ) (s rest : Bytes) → Lacks b s → split_at b (s ++ b ∷ rest) ≡ some (s, rest)
unfolding split_at
split_at-Lacks b [] rest h = rw (==_refl b) refl
split_at-Lacks b (c ∷ s) rest h = rw (h.0, split_at-Lacks b s rest h.1) refl
