-- ===== src/Fullwidth/Complete.antt =====
-- Every fullwidth character, raw or percent-encoded, is folded to the ASCII character it shows.
use mathlib.Core.Path.{subst}
use modsecurity_proxy_wasm.Fullwidth.Laws.{fold_from-nil, fold_from-raw, fold_from-percent}
use modsecurity_proxy_wasm.Base.{
  not, ◌||◌, ℕ, zero, suc, ◌+◌, ◌-◌, ◌/◌, ◌%◌, ◌≤◌, ◌<◌, ◌≡◌, refl, ap, ◌∙◌, true, false, Bool,
  List, [], ◌∷◌, ◌++◌, Option, none, some, arith, length, ltb, ◌==◌, ==_iff, if◌then◌else◌,
}
use modsecurity_proxy_wasm.Text.{Bytes}
use modsecurity_proxy_wasm.Fullwidth.{
  may_contain_fullwidth, fold_code, fold_raw, fold_percent, fold_from, normalize_fullwidth,
}

-- UTF-8 of the fullwidth form of the ASCII byte `a`, U+FF00 + (a - 0x20).
abbrev pub fullwidth : ℕ → Bytes
fullwidth a = 0xEF ∷ (0xBC + (a - 0x20) / 64) ∷ (0x80 + (a - 0x20) % 64) ∷ []

-- Hexadecimal digits from `ten` on: upper or lower case.
abbrev hex_char : ℕ → ℕ → ℕ
hex_char ten n = if ltb n 10 then b'0' + n else ten + (n - 10)

abbrev percent_byte : ℕ → ℕ → Bytes
percent_byte ten b = b'%' ∷ hex_char ten (b / 16) ∷ hex_char ten (b % 16) ∷ []

-- The same three bytes, percent-encoded.
abbrev pub percent_encoded : ℕ → ℕ → Bytes
percent_encoded ten a =
    percent_byte ten 0xEF
    ++ percent_byte ten (0xBC + (a - 0x20) / 64)
    ++ percent_byte ten (0x80 + (a - 0x20) % 64)

abbrev pub IsVisible : ℕ → Type 0
IsVisible a = (0x21 ≤ a) × (a ≤ 0x7E)

fold_code-fullwidth :
    (a : ℕ)
    → IsVisible a
    → fold_code 0xEF (0xBC + (a - 0x20) / 64) (0x80 + (a - 0x20) % 64) ≡ some a
unfolding fold_code
fold_code-fullwidth a h = ground arith

fold_from-fullwidth :
    (a : ℕ) (rest : Bytes) → IsVisible a → fold_from 0 (fullwidth a ++ rest) ≡ a ∷ fold_from 0 rest
unfolding fold_from fold_raw
fold_from-fullwidth a rest h =
    fold_from-raw 0xEF ((0xBC + (a - 0x20) / 64) ∷ (0x80 + (a - 0x20) % 64) ∷ rest)
      (fold_code-fullwidth a h)

abbrev is_some : Option ℕ → ℕ → Bool
is_some none a = false
is_some (some b) a = b == a

-- A test on every number less than `m`.
holds_up_to : (ℕ → Bool) → ℕ → Bool
holds_up_to test zero = true
holds_up_to test (suc m) = if test m then holds_up_to test m else false

holds_at : (test : ℕ → Bool) (m : ℕ) {k : ℕ} → holds_up_to test m ≡ true → k < m → test k ≡ true
unfolding holds_up_to
holds_at test zero all less = absurd (omega arith)
holds_at test (suc m) {k} all less = ground (arith, holds_at test m {k = k})

is_some_eq : (o : Option ℕ) (a : ℕ) → is_some o a ≡ true → o ≡ some a
is_some_eq none a h = cc
is_some_eq (some b) a h = ap some ((==_iff b a).0 h)

abbrev folds : ℕ → ℕ → Bool
folds ten n = is_some (fold_percent (percent_encoded ten (n + 0x21))) (n + 0x21)

upper_table : holds_up_to (folds b'A') 0x5E ≡ true
unfolding holds_up_to fold_percent
upper_table = refl

lower_table : holds_up_to (folds b'a') 0x5E ≡ true
unfolding holds_up_to fold_percent
lower_table = refl

fold_percent_table :
    (ten a : ℕ)
    → holds_up_to (folds ten) 0x5E ≡ true
    → IsVisible a
    → fold_percent (percent_encoded ten a) ≡ some a
fold_percent_table ten a table h =
    let shifted : (a - 0x21) + 0x21 ≡ a = omega arith in
    subst (λ x. fold_percent (percent_encoded ten x) ≡ some x) shifted
      (is_some_eq _ _ (holds_at (folds ten) 0x5E table (omega arith)))

fold_percent-append :
    (ten a : ℕ) (rest : Bytes)
    → fold_percent (percent_encoded ten a ++ rest) ≡ fold_percent (percent_encoded ten a)
unfolding fold_percent
fold_percent-append ten a rest = refl

fold_raw_percent : (s : Bytes) → fold_raw (b'%' ∷ s) ≡ none
unfolding fold_raw fold_code
fold_raw_percent [] = refl
fold_raw_percent (a ∷ []) = refl
fold_raw_percent (a ∷ b ∷ s) = refl

fold_from-percent_encoded :
    (ten a : ℕ) (rest : Bytes)
    → holds_up_to (folds ten) 0x5E ≡ true
    → IsVisible a
    → fold_from 0 (percent_encoded ten a ++ rest) ≡ a ∷ fold_from 0 rest
unfolding fold_from
fold_from-percent_encoded ten a rest table h =
    let tail : Bytes =
      (hex_char ten (0xEF / 16)
        ∷ hex_char ten (0xEF % 16)
        ∷ (percent_byte ten (0xBC + (a - 0x20) / 64)
            ++ percent_byte ten (0x80 + (a - 0x20) % 64)
            ++ rest)) in
    fold_from-percent b'%' tail (fold_raw_percent tail)
      (fold_percent-append ten a rest ∙ fold_percent_table ten a table h)

-- How a character of a text may be written.
pub data Form : Type 0 where
  raw upper_hex lower_hex : Form

abbrev pub write : Form → ℕ → Bytes
write raw a = fullwidth a
write upper_hex a = percent_encoded b'A' a
write lower_hex a = percent_encoded b'a' a

abbrev pub written : List (Form × ℕ) → Bytes
written [] = []
written ((f, a) ∷ s) = write f a ++ written s

abbrev pub letters : List (Form × ℕ) → Bytes
letters [] = []
letters ((f, a) ∷ s) = a ∷ letters s

abbrev pub AllVisible : List (Form × ℕ) → Type 0
AllVisible [] = Unit
AllVisible ((f, a) ∷ s) = IsVisible a × AllVisible s

fold_from-write :
    (f : Form) (a : ℕ) (rest : Bytes)
    → IsVisible a
    → fold_from 0 (write f a ++ rest) ≡ a ∷ fold_from 0 rest
fold_from-write raw a rest h = fold_from-fullwidth a rest h
fold_from-write upper_hex a rest h = fold_from-percent_encoded b'A' a rest upper_table h
fold_from-write lower_hex a rest h = fold_from-percent_encoded b'a' a rest lower_table h

fold_from-written : (s : List (Form × ℕ)) → AllVisible s → fold_from 0 (written s) ≡ letters s
fold_from-written [] h = fold_from-nil 0
fold_from-written ((f, a) ∷ s) h =
    fold_from-write f a (written s) h.0 ∙ ap (◌∷◌ a) (fold_from-written s h.1)

may_contain-written :
    (f : Form) (a : ℕ) (s : Bytes)
    → (ltb (length (write f a ++ s)) 3 || not (may_contain_fullwidth (write f a ++ s))) ≡ false
unfolding may_contain_fullwidth
may_contain-written raw a s = ground arith
may_contain-written upper_hex a s = ground arith
may_contain-written lower_hex a s = ground arith

-- A text of printable ASCII characters (0x21 to 0x7E), each in its fullwidth form as raw UTF-8 or
-- percent-encoded with upper- or lower-case digits, normalises to the ASCII text.
pub normalize_fullwidth-written :
    (s : List (Form × ℕ)) → AllVisible s → normalize_fullwidth (written s) ≡ letters s
unfolding normalize_fullwidth
normalize_fullwidth-written [] h = refl
normalize_fullwidth-written ((f, a) ∷ s) h =
    rw (may_contain-written f a (written s)) (fold_from-written ((f, a) ∷ s) h)
