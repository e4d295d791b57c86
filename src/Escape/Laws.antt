-- ===== src/Escape/Laws.antt =====
-- What escaping and sanitising guarantee of a log line.
use Prim.Native.Nat.{min}
use modsecurity_proxy_wasm.Base.{
  ℕ, zero, suc, ◌≤◌, ◌≡◌, ◌≢◌, ◌⊎◌, refl, false, [], ◌∷◌, ◌++◌, arith, length, All, All-append,
  append_assoc,
}
use modsecurity_proxy_wasm.Text.{Bytes}
use modsecurity_proxy_wasm.Escape.{
  escape_byte, json_escape, sanitize_byte, classic_log_sanitize, read_string,
}

-- A byte that JSON text may carry unescaped or that has a short escape.
abbrev pub IsText : ℕ → Type 0
IsText c = (0x20 ≤ c) ⊎ ((c ≡ b'\n') ⊎ ((c ≡ b'\r') ⊎ (c ≡ b'\t')))

read_string-escape_byte :
    (c : ℕ) (s : Bytes) → (read_string false (escape_byte c ++ s)).1 ≡ (read_string false s).1
unfolding read_string escape_byte
read_string-escape_byte c s = ground arith

read_string-escape_byte_text :
    (c : ℕ) (s : Bytes)
    → IsText c
    → (read_string false (escape_byte c ++ s)).0 ≡ c ∷ (read_string false s).0
unfolding read_string escape_byte
read_string-escape_byte_text c s h = ground arith

-- Whatever bytes a text holds, the string reader that starts behind the opening quote of its
-- escaped form stops at the closing quote, and leaves what stands behind it untouched.
pub json_escape_closes :
    (s rest : Bytes) → (read_string false (json_escape s ++ b'"' ∷ rest)).1 ≡ b'"' ∷ rest
unfolding json_escape
json_escape_closes [] rest = unfold read_string in refl
json_escape_closes (c ∷ s) rest =
    rw append_assoc
      (rw (read_string-escape_byte c (json_escape s ++ b'"' ∷ rest)) (json_escape_closes s rest))

-- A text of bytes from 0x20 on, newlines, carriage returns and tabs is read back from its escaped
-- form unchanged.
pub read_string-json_escape :
    (s rest : Bytes) → All IsText s → (read_string false (json_escape s ++ b'"' ∷ rest)).0 ≡ s
unfolding json_escape
read_string-json_escape [] rest h = unfold read_string in refl
read_string-json_escape (c ∷ s) rest h = rw append_assoc (
    rw (read_string-escape_byte_text c (json_escape s ++ b'"' ∷ rest) h.0)
      (rw (read_string-json_escape s rest h.1)))

escape_byte_printable : (c : ℕ) → All (λ b. 0x20 ≤ b) (escape_byte c)
unfolding escape_byte
escape_byte_printable c = ground arith

-- An escaped text holds no control byte, so it cannot break the log line.
pub json_escape_printable : (s : Bytes) → All (λ b. 0x20 ≤ b) (json_escape s)
unfolding json_escape
json_escape_printable [] = tt
json_escape_printable (c ∷ s) =
    All-append (λ b. 0x20 ≤ b) (escape_byte c) (json_escape s) (escape_byte_printable c)
      (json_escape_printable s)

-- A byte that neither ends a classic fragment `[id "N"] [msg "..."]` nor breaks its line.
abbrev pub IsSafe : ℕ → Type 0
IsSafe b = (0x20 ≤ b) × (b ≢ b'"') × (b ≢ b'[') × (b ≢ b']')

sanitize_byte-IsSafe : (c : ℕ) → IsSafe (sanitize_byte c)
unfolding sanitize_byte
sanitize_byte-IsSafe c = (ground arith, ground arith, ground arith, ground arith)

-- A sanitised text holds safe bytes alone, as many as the text has up to the limit.
pub classic_log_sanitize-IsSafe :
    (s : Bytes) (max_len : ℕ)
    → All IsSafe (classic_log_sanitize s max_len)
      × (length (classic_log_sanitize s max_len) ≡ min (length s) max_len)
unfolding classic_log_sanitize
classic_log_sanitize-IsSafe [] n = (tt, omega arith)
classic_log_sanitize-IsSafe (c ∷ s) zero = (tt, omega arith)
classic_log_sanitize-IsSafe (c ∷ s) (suc n) =
    let rest = classic_log_sanitize-IsSafe s n in
    ((sanitize_byte-IsSafe c, rest.0), omega (arith, rest.1))
