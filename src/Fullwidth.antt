-- ===== src/Fullwidth.antt =====
-- src/modsecurity_proxy_wasm.cc: fullwidth ASCII (U+FF01..U+FF5E) folded to ASCII, raw or
-- percent-encoded. A byte is a number below 256.
pub mod Laws
pub mod Complete
use modsecurity_proxy_wasm.Base.{
  ℕ, zero, suc, ◌+◌, ◌-◌, ◌*◌, Bool, true, false, not, ◌&&◌, ◌||◌, List, [], ◌∷◌, Option, none,
  some, ltb, leb, ◌==◌, if◌then◌else◌, length,
}
use modsecurity_proxy_wasm.Text.{Bytes}

-- `none` is -1.
unfoldable pub hex_nibble : ℕ → Option ℕ
hex_nibble c =
    if leb b'0' c && leb c b'9'
    then some (c - b'0')
    else if leb b'a' c && leb c b'f'
    then some (c - b'a' + 10)
    else if leb b'A' c && leb c b'F'
    then some (c - b'A' + 10)
    else none

unfoldable pub may_contain_fullwidth : Bytes → Bool
may_contain_fullwidth [] = false
may_contain_fullwidth (c ∷ s) = leb 0x80 c || c == b'%' || may_contain_fullwidth s

-- The code point of the bytes EF b1 b2, as the two ranges that the code tests give it.
abbrev code_point : ℕ → ℕ → Option ℕ
code_point b1 b2 =
    if b1 == 0xBC && leb 0x81 b2 && leb b2 0xBF
    then some (0xFF00 + (b2 - 0x80))
    else if b1 == 0xBD && leb 0x80 b2 && leb b2 0x9E
    then some (0xFF40 + (b2 - 0x80))
    else none

abbrev in_range : Option ℕ → Option ℕ
in_range none = none
in_range (some cp) = if leb 0xFF01 cp && leb cp 0xFF5E then some (cp - 0xFEE0) else none

-- The ASCII byte for EF b1 b2.
unfoldable pub fold_code : ℕ → ℕ → ℕ → Option ℕ
fold_code b0 b1 b2 = if b0 == 0xEF then in_range (code_point b1 b2) else none

abbrev byte_of : Option ℕ → Option ℕ → Option ℕ
byte_of (some h) (some l) = some (h * 16 + l)
byte_of _ _ = none

abbrev fold_encoded : Option ℕ → Option ℕ → Option ℕ → Option ℕ
fold_encoded (some a) (some b) (some c) = fold_code a b c
fold_encoded _ _ _ = none

-- The raw form at the head of `s`: three bytes.
unfoldable pub fold_raw : Bytes → Option ℕ
unfolding fold_code
fold_raw (b0 ∷ b1 ∷ b2 ∷ s) = fold_code b0 b1 b2
fold_raw _ = none

-- The percent-encoded form at the head of `s`: nine bytes.
unfoldable pub fold_percent : Bytes → Option ℕ
unfolding fold_code hex_nibble
fold_percent (p ∷ a ∷ b ∷ q ∷ c ∷ d ∷ r ∷ e ∷ f ∷ s) =
    if p == b'%' && q == b'%' && r == b'%'
    then fold_encoded (byte_of (hex_nibble a) (hex_nibble b))
        (byte_of (hex_nibble c) (hex_nibble d)) (byte_of (hex_nibble e) (hex_nibble f))
    else none
fold_percent _ = none

-- The loop: the first argument counts the bytes that the last match still covers.
unfoldable pub fold_from : ℕ → Bytes → Bytes
unfolding fold_raw fold_percent
fold_from skip [] = []
fold_from (suc k) (c ∷ s) = fold_from k s
fold_from zero (c ∷ s) = elim (fold_raw (c ∷ s)) [
  | some a ↦ a ∷ fold_from 2 s
  | none ↦ elim (fold_percent (c ∷ s)) [ some a ↦ a ∷ fold_from 8 s | none ↦ c ∷ fold_from 0 s ]
]

unfoldable pub normalize_fullwidth : Bytes → Bytes
unfolding may_contain_fullwidth fold_from
normalize_fullwidth s =
    if ltb (length s) 3 || not (may_contain_fullwidth s) then s else fold_from 0 s
