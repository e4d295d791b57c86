-- ===== src/Config/Base64.antt =====
-- src/waf_config.cc: `base64Decode`, which reads the compressed directives.
pub mod RoundTrip
pub mod Errors
use modsecurity_proxy_wasm.Base.{
  ℕ, ◌+◌, ◌-◌, ◌*◌, ◌/◌, ◌%◌, ◌^◌, Bool, ◌&&◌, ◌||◌, [], ◌∷◌, Option, none, some, map,
  if◌then◌else◌, ltb, leb, ◌==◌,
}
use modsecurity_proxy_wasm.Text.{Bytes, is_space}

-- The table `kDec`; `none` stands for -1.
unfoldable pub digit : ℕ → Option ℕ
digit c =
    if leb b'A' c && leb c b'Z'
    then some (c - b'A')
    else if leb b'a' c && leb c b'z'
    then some (c - b'a' + 26)
    else if leb b'0' c && leb c b'9'
    then some (c - b'0' + 52)
    else if c == b'+'
    then some 62
    else if c == b'/'
    then some 63
    else none

-- `val`, which wraps at 32 bits, and `valb + 8`, so that a byte is full from 8 on.
pub record Bits : Type 0 where
  pub val : ℕ
  pub count : ℕ

-- The loop's body: the bits behind the character `c` and the byte that it completes, or an error.
unfoldable pub take_char : Bits → ℕ → Option (Bits × Option ℕ)
take_char b c =
    let taken : Option (Bits × Option ℕ) = elim (digit c) [
      | none ↦ none
      | some d ↦
          let val = (b.val * 64 + d) % 2 ^ 32 in
          let count = b.count + 6 in
          if ltb count 8
          then some (record { val = val; count = count }, none)
          else some (record { val = val; count = count - 8 }, some (val / 2 ^ (count - 8) % 256))
    ] in
    if c == b'=' || is_space c then some (b, none) else taken

abbrev pub push : Option ℕ → Option Bytes → Option Bytes
push o none = none
push none (some s) = some s
push (some c) (some s) = some (c ∷ s)

unfoldable pub decode_from : Bits → Bytes → Option Bytes
decode_from b [] = some []
decode_from b (c ∷ s) = elim (take_char b c) [
  | none ↦ none
  | some (b', out) ↦ push out (decode_from b' s)
]

-- `base64Decode`; `none` stands for the error "invalid base64 in compressed directives".
unfoldable pub base64_decode : Bytes → Option Bytes
base64_decode s = decode_from (record { val = 0; count = 0 }) s
