-- ===== src/Config/Base64/Errors.antt =====
-- Which texts `base64Decode` refuses.
use modsecurity_proxy_wasm.Base.{
  ℕ, ◌≡◌, refl, ap, false, ◌||◌, [], ◌∷◌, ◌++◌, none, ◌==◌, inl, inr, Option-cases,
}
use modsecurity_proxy_wasm.Text.{Bytes, is_space}
use modsecurity_proxy_wasm.Config.Base64.{Bits, digit, take_char, push, decode_from, base64_decode}

take_illegal :
    (b : Bits) (c : ℕ) → (c == b'=' || is_space c) ≡ false → digit c ≡ none → take_char b c ≡ none
unfolding take_char
take_illegal b c plain e = rw (plain, e) refl

decode_from-none :
    (b : Bits) (s : Bytes) (c : ℕ) (t : Bytes)
    → (c == b'=' || is_space c) ≡ false
    → digit c ≡ none
    → decode_from b (s ++ c ∷ t) ≡ none
unfolding decode_from
decode_from-none b [] c t plain e = rw (take_illegal b c plain e, decode_from) refl
decode_from-none b (x ∷ s) c t plain e = elim (Option-cases (take_char b x)) [
  | inl n ↦ rw (n, decode_from) refl
  | inr ((b', o), f) ↦ rw (f, decode_from) (ap (push o) (decode_from-none b' s c t plain e))
]

-- A character that is no digit of the alphabet, no equals sign and no white space makes the decoder
-- refuse the text, wherever it stands.
pub base64_decode-none :
    (s : Bytes) (c : ℕ) (t : Bytes)
    → (c == b'=' || is_space c) ≡ false
    → digit c ≡ none
    → base64_decode (s ++ c ∷ t) ≡ none
unfolding base64_decode
base64_decode-none s c t plain e = decode_from-none (record { val = 0; count = 0 }) s c t plain e
