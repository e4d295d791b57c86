-- ===== src/Config/Base64/RoundTrip.antt =====
-- What the standard encoder writes, `base64Decode` reads back.
use modsecurity_proxy_wasm.Base.{
  ℕ, ◌+◌, ◌-◌, ◌*◌, ◌/◌, ◌%◌, ◌^◌, ◌<◌, ◌≡◌, refl, ◌∙◌, ap, false, ◌||◌, [], ◌∷◌, Option, none,
  some, arith, if◌then◌else◌, ltb, ◌==◌, All,
}
use modsecurity_proxy_wasm.Text.{Bytes, is_space}
use modsecurity_proxy_wasm.Config.Base64.{Bits, digit, take_char, push, decode_from, base64_decode}

-- The character of a digit below 64.
abbrev pub symbol : ℕ → ℕ
symbol d =
    if ltb d 26
    then b'A' + d
    else if ltb d 52
    then b'a' + (d - 26)
    else if ltb d 62
    then b'0' + (d - 52)
    else if d == 62
    then b'+'
    else b'/'

-- Three bytes as four characters, and the end padded with equals signs.
unfoldable pub base64_encode : Bytes → Bytes
base64_encode [] = []
base64_encode (a ∷ []) = symbol (a / 4) ∷ symbol (a % 4 * 16) ∷ b'=' ∷ b'=' ∷ []
base64_encode (a ∷ b ∷ []) =
    symbol (a / 4) ∷ symbol (a % 4 * 16 + b / 16) ∷ symbol (b % 16 * 4) ∷ b'=' ∷ []
base64_encode (a ∷ b ∷ c ∷ s) =
    symbol (a / 4)
    ∷ symbol (a % 4 * 16 + b / 16)
    ∷ symbol (b % 16 * 4 + c / 64)
    ∷ symbol (c % 64)
    ∷ base64_encode s

symbol_plain : (d : ℕ) → d < 64 → (symbol d == b'=' || is_space (symbol d)) ≡ false
unfolding is_space
symbol_plain d h = ground arith

digit-symbol : (d : ℕ) → d < 64 → digit (symbol d) ≡ some d
unfolding digit
digit-symbol d h = ground arith

second_byte :
    (v d1 d2 : ℕ)
    → d1 < 64
    → d2 < 64
    → ((v * 64 + d1) % 2 ^ 32 * 64 + d2) % 2 ^ 32 / 16 % 256 ≡ d1 * 4 + d2 / 16
second_byte v d1 d2 h1 h2 = omega arith

third_byte :
    (v d1 d2 : ℕ)
    → d1 < 64
    → d2 < 64
    → ((v * 64 + d1) % 2 ^ 32 * 64 + d2) % 2 ^ 32 / 4 % 256 ≡ d1 % 16 * 16 + d2 / 4
third_byte v d1 d2 h1 h2 = omega arith

abbrev bits : ℕ → ℕ → Bits
bits v n = record { val = v; count = n }

-- A digit that completes no byte, and one that completes a byte.
take_first :
    (v d : ℕ)
    → d < 64
    → take_char (bits v 0) (symbol d) ≡ some (bits ((v * 64 + d) % 2 ^ 32) 6, none)
unfolding take_char
take_first v d h = rw (symbol_plain d h, digit-symbol d h) refl

abbrev after : ℕ → ℕ → ℕ
after v d = (v * 64 + d) % 2 ^ 32

take_second :
    (v d : ℕ)
    → d < 64
    → take_char (bits v 6) (symbol d) ≡ some (bits (after v d) 4, some (after v d / 16 % 256))
unfolding take_char
take_second v d h = rw (symbol_plain d h, digit-symbol d h) refl

take_third :
    (v d : ℕ)
    → d < 64
    → take_char (bits v 4) (symbol d) ≡ some (bits (after v d) 2, some (after v d / 4 % 256))
unfolding take_char
take_third v d h = rw (symbol_plain d h, digit-symbol d h) refl

take_fourth :
    (v d : ℕ)
    → d < 64
    → take_char (bits v 2) (symbol d) ≡ some (bits (after v d) 0, some (after v d / 1 % 256))
unfolding take_char
take_fourth v d h = rw (symbol_plain d h, digit-symbol d h) refl

decode_cons :
    (b : Bits) (c : ℕ) (s : Bytes) {b' : Bits} {o : Option ℕ}
    → take_char b c ≡ some (b', o)
    → decode_from b (c ∷ s) ≡ push o (decode_from b' s)
unfolding decode_from
decode_cons b c s e =
    ap {A = Option (Bits × Option ℕ)} {B = Option Bytes}
      (λ t. elim t [ none ↦ none | some (b', o) ↦ push o (decode_from b' s) ]) e

push-none : (o : Option Bytes) → push none o ≡ o
push-none none = refl
push-none (some s) = refl

decode_padding : (b : Bits) (s : Bytes) → decode_from b (b'=' ∷ s) ≡ decode_from b s
unfolding decode_from take_char
decode_padding b s = push-none (decode_from b s)

-- Two characters give a byte, and the next two one each.
decode_two :
    (v a d : ℕ) (s : Bytes)
    → a < 256
    → d < 16
    → decode_from (bits v 0) (symbol (a / 4) ∷ symbol (a % 4 * 16 + d) ∷ s)
      ≡ push (some a) (decode_from (bits (after (after v (a / 4)) (a % 4 * 16 + d)) 4) s)
decode_two v a d s h hd =
    let first = a / 4 in
    let second = a % 4 * 16 + d in
    let v1 = after v first in
    let rest = decode_from (bits (after v1 second) 4) s in
    let byte : after v1 second / 16 % 256 ≡ a =
      second_byte v first second (omega arith) (omega arith) ∙ omega arith in
    decode_cons (bits v 0) (symbol first) (symbol second ∷ s) (take_first v first (omega arith))
    ∙ push-none (decode_from (bits v1 6) (symbol second ∷ s))
    ∙ decode_cons (bits v1 6) (symbol second) s (take_second v1 second (omega arith))
    ∙ ap (λ b. push (some b) rest) byte

decode_third :
    (v d b e : ℕ) (s : Bytes)
    → d < 4
    → b < 256
    → e < 4
    → decode_from (bits (after v (d * 16 + b / 16)) 4) (symbol (b % 16 * 4 + e) ∷ s)
      ≡ push (some b) (decode_from (bits (after (after v (d * 16 + b / 16)) (b % 16 * 4 + e)) 2) s)
decode_third v d b e s hd hb he =
    let first = d * 16 + b / 16 in
    let second = b % 16 * 4 + e in
    let v1 = after v first in
    let byte : after v1 second / 4 % 256 ≡ b =
      third_byte v first second (omega arith) (omega arith) ∙ omega arith in
    decode_cons (bits v1 4) (symbol second) s (take_third v1 second (omega arith))
    ∙ ap (λ x. push (some x) (decode_from (bits (after v1 second) 2) s)) byte

decode_fourth :
    (v b c : ℕ) (s : Bytes)
    → b < 16
    → c < 256
    → decode_from (bits (after v (b * 4 + c / 64)) 2) (symbol (c % 64) ∷ s)
      ≡ push (some c) (decode_from (bits (after (after v (b * 4 + c / 64)) (c % 64)) 0) s)
decode_fourth v b c s hb hc =
    let first = b * 4 + c / 64 in
    let v1 = after v first in
    let byte : after v1 (c % 64) / 1 % 256 ≡ c = omega arith in
    decode_cons (bits v1 2) (symbol (c % 64)) s (take_fourth v1 (c % 64) (omega arith))
    ∙ ap (λ x. push (some x) (decode_from (bits (after v1 (c % 64)) 0) s)) byte

abbrev pub IsByte : ℕ → Type 0
IsByte c = c < 256

plus_zero : (n : ℕ) → n ≡ n + 0
plus_zero n = omega arith

decode_end : (b : Bits) → decode_from b [] ≡ some []
unfolding decode_from
decode_end b = refl

decode_from-base64_encode :
    (v : ℕ) (s : Bytes) → All IsByte s → decode_from (bits v 0) (base64_encode s) ≡ some s
unfolding base64_encode
decode_from-base64_encode v [] h = decode_end (bits v 0)
decode_from-base64_encode v (a ∷ []) h =
    let pad : Bytes = b'=' ∷ b'=' ∷ [] in
    let last = bits (after (after v (a / 4)) (a % 4 * 16 + 0)) 4 in
    ap (λ d. decode_from (bits v 0) (symbol (a / 4) ∷ symbol d ∷ pad)) (plus_zero (a % 4 * 16))
    ∙ decode_two v a 0 pad h.0 (omega arith)
    ∙ ap (push (some a))
        (decode_padding last (b'=' ∷ []) ∙ decode_padding last [] ∙ decode_end last)
decode_from-base64_encode v (a ∷ b ∷ []) h =
    let (ha, (hb, _)) = h in
    let pad : Bytes = b'=' ∷ [] in
    let v1 = after v (a / 4) in
    let v2 = after v1 (a % 4 * 16 + b / 16) in
    let last = bits (after v2 (b % 16 * 4 + 0)) 2 in
    ap
      (λ d. decode_from (bits v 0) (symbol (a / 4) ∷ symbol (a % 4 * 16 + b / 16) ∷ symbol d ∷ pad))
      (plus_zero (b % 16 * 4))
    ∙ decode_two v a (b / 16) (symbol (b % 16 * 4 + 0) ∷ pad) ha (omega arith)
    ∙ ap (push (some a)) (
        decode_third v1 (a % 4) b 0 pad (omega arith) hb (omega arith)
        ∙ ap (push (some b)) (decode_padding last [] ∙ decode_end last))
decode_from-base64_encode v (a ∷ b ∷ c ∷ s) h =
    let (ha, (hb, (hc, hs))) = h in
    let v1 = after v (a / 4) in
    let v2 = after v1 (a % 4 * 16 + b / 16) in
    let v3 = after v2 (b % 16 * 4 + c / 64) in
    let tail = symbol (c % 64) ∷ base64_encode s in
    decode_two v a (b / 16) (symbol (b % 16 * 4 + c / 64) ∷ tail) ha (omega arith)
    ∙ ap (push (some a)) (
        decode_third v1 (a % 4) b (c / 64) tail (omega arith) hb (omega arith)
        ∙ ap (push (some b)) (
            decode_fourth v2 (b % 16) c (base64_encode s) (omega arith) hc
            ∙ ap (push (some c)) (decode_from-base64_encode (after v3 (c % 64)) s hs)))

-- Any bytes, encoded in standard base64 with padding, are decoded to themselves, however long they
-- are: the wrapping of the 32-bit accumulator loses no bit of the result.
pub base64_decode-base64_encode :
    (s : Bytes) → All IsByte s → base64_decode (base64_encode s) ≡ some s
unfolding base64_decode
base64_decode-base64_encode s h = decode_from-base64_encode 0 s h
