-- ===== src/Fullwidth/Laws.antt =====
-- What the fold guarantees.
use modsecurity_proxy_wasm.Base.{
  ℕ, zero, suc, ◌≤◌, ◌<◌, ◌≡◌, refl, inl, inr, false, [], ◌∷◌, Option, none, some, arith, length,
  Option-cases, Bool-cases, ltb→lt, ◌&&◌, ltb, ◌==◌,
}
use modsecurity_proxy_wasm.Text.{Bytes}
use modsecurity_proxy_wasm.Fullwidth.{
  hex_nibble, byte_of, fold_encoded, may_contain_fullwidth, fold_code, fold_raw, fold_percent,
  fold_from, normalize_fullwidth,
}

-- Folded bytes are printable ASCII.
fold_code_ascii : (b0 b1 b2 : ℕ) {a : ℕ} → fold_code b0 b1 b2 ≡ some a → (0x21 ≤ a) × (a ≤ 0x7E)
unfolding fold_code
fold_code_ascii b0 b1 b2 h = ground arith

fold_raw_ascii : (s : Bytes) {a : ℕ} → fold_raw s ≡ some a → (0x21 ≤ a) × (a ≤ 0x7E)
unfolding fold_raw
fold_raw_ascii (b0 ∷ b1 ∷ b2 ∷ s) h = fold_code_ascii b0 b1 b2 h
fold_raw_ascii _ h = cc

fold_encoded_ascii :
    (x y z : Option ℕ) {a : ℕ} → fold_encoded x y z ≡ some a → (0x21 ≤ a) × (a ≤ 0x7E)
fold_encoded_ascii (some x) (some y) (some z) h = fold_code_ascii x y z h
fold_encoded_ascii _ _ _ h = cc

fold_percent_ascii : (s : Bytes) {a : ℕ} → fold_percent s ≡ some a → (0x21 ≤ a) × (a ≤ 0x7E)
unfolding fold_percent
fold_percent_ascii (p ∷ a ∷ b ∷ q ∷ c ∷ d ∷ r ∷ e ∷ f ∷ s) h =
    elim (Bool-cases (p == b'%' && q == b'%' && r == b'%')) [
      | inl t ↦
          fold_encoded_ascii (byte_of (hex_nibble a) (hex_nibble b))
            (byte_of (hex_nibble c) (hex_nibble d)) (byte_of (hex_nibble e) (hex_nibble f))
            (rw t at h)
      | inr t ↦ absurd (cc (rw t at h))
    ]
fold_percent_ascii _ h = cc

-- No raw fullwidth character begins anywhere in the text.
abbrev pub IsFolded : Bytes → Type 0
IsFolded [] = Unit
IsFolded (c ∷ s) = (fold_raw (c ∷ s) ≡ none) × IsFolded s

pub fold_from-raw :
    (c : ℕ) (s : Bytes) {a : ℕ}
    → fold_raw (c ∷ s) ≡ some a
    → fold_from 0 (c ∷ s) ≡ a ∷ fold_from 2 s
unfolding fold_from
fold_from-raw c s e = rw (e, fold_from)

pub fold_from-percent :
    (c : ℕ) (s : Bytes) {a : ℕ}
    → fold_raw (c ∷ s) ≡ none
    → fold_percent (c ∷ s) ≡ some a
    → fold_from 0 (c ∷ s) ≡ a ∷ fold_from 8 s
unfolding fold_from
fold_from-percent c s e p = rw (e, p, fold_from)

-- The three ways in which the loop takes the byte at its place.
data Takes (c : ℕ) (s : Bytes) : Type 0 where
  raw : (a : ℕ) → fold_raw (c ∷ s) ≡ some a → fold_from 0 (c ∷ s) ≡ a ∷ fold_from 2 s → Takes c s
  percent :
      (a : ℕ) → fold_percent (c ∷ s) ≡ some a → fold_from 0 (c ∷ s) ≡ a ∷ fold_from 8 s → Takes c s
  copy : fold_raw (c ∷ s) ≡ none → fold_from 0 (c ∷ s) ≡ c ∷ fold_from 0 s → Takes c s

takes : (c : ℕ) (s : Bytes) → Takes c s
unfolding fold_from
takes c s = elim (Option-cases (fold_raw (c ∷ s))) [
  | inr (a, e) ↦ raw a e (fold_from-raw c s e)
  | inl e ↦ elim (Option-cases (fold_percent (c ∷ s))) [
    | inr (a, p) ↦ percent a p (fold_from-percent c s e p)
    | inl p ↦ copy e (rw (e, p, fold_from))
  ]
]

pub fold_from-nil : (k : ℕ) → fold_from k [] ≡ []
unfolding fold_from
fold_from-nil k = refl

fold_from-skip : (k c : ℕ) (s : Bytes) → fold_from (suc k) (c ∷ s) ≡ fold_from k s
unfolding fold_from
fold_from-skip k c s = refl

-- A byte below 0x80, or the third byte of what was no match before, does not make a match.
fold_code_ascii_second : (b0 b1 b2 : ℕ) → b1 < 0x80 → fold_code b0 b1 b2 ≡ none
unfolding fold_code
fold_code_ascii_second b0 b1 b2 h = ground arith

fold_code_ascii_third : (b0 b1 b2 : ℕ) → b2 < 0x80 → fold_code b0 b1 b2 ≡ none
unfolding fold_code
fold_code_ascii_third b0 b1 b2 h = ground arith

fold_raw_second : (c a : ℕ) (s : Bytes) → a < 0x80 → fold_raw (c ∷ a ∷ s) ≡ none
unfolding fold_raw
fold_raw_second c a [] h = refl
fold_raw_second c a (b ∷ s) h = fold_code_ascii_second c a b h

fold_raw_third : (c d a : ℕ) (s : Bytes) → a < 0x80 → fold_raw (c ∷ d ∷ a ∷ s) ≡ none
unfolding fold_raw
fold_raw_third c d a s h = fold_code_ascii_third c d a h

fold_raw_first : (a : ℕ) (s : Bytes) → a < 0x80 → fold_raw (a ∷ s) ≡ none
unfolding fold_raw fold_code
fold_raw_first a [] h = refl
fold_raw_first a (b ∷ []) h = refl
fold_raw_first a (b ∷ c ∷ s) h = ground arith

-- Copying a byte that begins no match leaves none at its place, whatever happens behind it.
fold_raw_after_two :
    (c d : ℕ) (s : Bytes) → fold_raw (c ∷ d ∷ s) ≡ none → fold_raw (c ∷ d ∷ fold_from 0 s) ≡ none
fold_raw_after_two c d [] e = rw fold_from-nil e
fold_raw_after_two c d (b ∷ s) e = elim (takes b s) [
  | raw a q p ↦ rw p (fold_raw_third c d a _ (omega (arith, fold_raw_ascii (b ∷ s) q)))
  | percent a q p ↦ rw p (fold_raw_third c d a _ (omega (arith, fold_percent_ascii (b ∷ s) q)))
  | copy q p ↦ rw p (unfold fold_raw in e)
]

fold_raw_after_one :
    (c : ℕ) (s : Bytes) → fold_raw (c ∷ s) ≡ none → fold_raw (c ∷ fold_from 0 s) ≡ none
fold_raw_after_one c [] e = rw fold_from-nil e
fold_raw_after_one c (d ∷ s) e = elim (takes d s) [
  | raw a q p ↦ rw p (fold_raw_second c a _ (omega (arith, fold_raw_ascii (d ∷ s) q)))
  | percent a q p ↦ rw p (fold_raw_second c a _ (omega (arith, fold_percent_ascii (d ∷ s) q)))
  | copy q p ↦ rw p (fold_raw_after_two c d s e)
]

fold_from-IsFolded : (k : ℕ) (s : Bytes) → IsFolded (fold_from k s)
fold_from-IsFolded k [] = rw fold_from-nil tt
fold_from-IsFolded (suc k) (c ∷ s) = rw fold_from-skip (fold_from-IsFolded k s)
fold_from-IsFolded zero (c ∷ s) = elim (takes c s) [
  | raw a q p ↦
      rw p (fold_raw_first a _ (omega (arith, fold_raw_ascii (c ∷ s) q)), fold_from-IsFolded 2 s)
  | percent a q p ↦
      rw p
        (fold_raw_first a _ (omega (arith, fold_percent_ascii (c ∷ s) q)), fold_from-IsFolded 8 s)
  | copy q p ↦ rw p (fold_raw_after_one c s q, fold_from-IsFolded 0 s)
]

not_may_contain-IsFolded : (s : Bytes) → may_contain_fullwidth s ≡ false → IsFolded s
unfolding may_contain_fullwidth
not_may_contain-IsFolded [] h = tt
not_may_contain-IsFolded (c ∷ s) h =
    (fold_raw_first c s (ground arith), not_may_contain-IsFolded s (ground arith))

short-IsFolded : (s : Bytes) → length s < 3 → IsFolded s
unfolding fold_raw
short-IsFolded [] h = tt
short-IsFolded (a ∷ []) h = (refl, tt)
short-IsFolded (a ∷ b ∷ []) h = (refl, (refl, tt))
short-IsFolded (a ∷ b ∷ c ∷ s) h = absurd (omega arith)

-- The normalised text holds no raw fullwidth ASCII character (EF BC 81 .. EF BD 9E) at any place.
pub normalize_fullwidth-IsFolded : (s : Bytes) → IsFolded (normalize_fullwidth s)
unfolding normalize_fullwidth
normalize_fullwidth-IsFolded s = elim (Bool-cases (ltb (length s) 3)) [
  | inl e ↦ rw e (short-IsFolded s (ltb→lt _ _ e))
  | inr e ↦ elim (Bool-cases (may_contain_fullwidth s)) [
    | inl m ↦ rw (e, m) (fold_from-IsFolded 0 s)
    | inr m ↦ rw (e, m) (not_may_contain-IsFolded s m)
  ]
]
