-- ===== src/Escape.antt =====
-- src/modsecurity_proxy_wasm.cc: text made safe for a log line, and the string reader of
-- src/waf_config.cc, which undoes it.
pub mod Laws
use modsecurity_proxy_wasm.Base.{
  ℕ, ◌+◌, ◌-◌, ◌/◌, ◌%◌, zero, suc, Bool, true, false, ◌||◌, List, [], ◌∷◌, ◌++◌, ltb, ◌==◌,
  if◌then◌else◌,
}
use modsecurity_proxy_wasm.Text.{Bytes, codes}

-- A lower-case hexadecimal digit.
abbrev pub hex_digit : ℕ → ℕ
hex_digit n = if ltb n 10 then b'0' + n else b'a' + (n - 10)

-- What `jsonEscape` appends for one byte.
unfoldable pub escape_byte : ℕ → Bytes
escape_byte c =
    if c == b'"'
    then b'\\' ∷ b'"' ∷ []
    else if c == b'\\'
    then b'\\' ∷ b'\\' ∷ []
    else if c == b'\n'
    then b'\\' ∷ b'n' ∷ []
    else if c == b'\r'
    then b'\\' ∷ b'r' ∷ []
    else if c == b'\t'
    then b'\\' ∷ b't' ∷ []
    else if ltb c 0x20
    then b'\\' ∷ b'u' ∷ b'0' ∷ b'0' ∷ hex_digit (c / 16) ∷ hex_digit (c % 16) ∷ []
    else c ∷ []

unfoldable pub json_escape : Bytes → Bytes
unfolding escape_byte
json_escape [] = []
json_escape (c ∷ s) = escape_byte c ++ json_escape s

-- What stands for one byte in a classic log fragment.
unfoldable pub sanitize_byte : ℕ → ℕ
sanitize_byte c =
    if c == b'"' || c == b'[' || c == b']' || c == b'\n' || c == b'\r' || c == b'\t'
    then b' '
    else if ltb c 0x20
    then b' '
    else c

unfoldable pub classic_log_sanitize : Bytes → ℕ → Bytes
unfolding sanitize_byte
classic_log_sanitize [] max_len = []
classic_log_sanitize (c ∷ s) zero = []
classic_log_sanitize (c ∷ s) (suc room) = sanitize_byte c ∷ classic_log_sanitize s room

-- The byte that an escape stands for.
unfoldable pub unescape : ℕ → ℕ
unescape c =
    if c == b'n' then b'\n' else if c == b'r' then b'\r' else if c == b't' then b'\t' else c

-- The loop that reads a JSON string behind its opening quote: the text, and what is left from
-- the closing quote on (nothing, if the string is not closed). The flag is `escape`.
unfoldable pub read_string : Bool → Bytes → Bytes × Bytes
unfolding unescape
read_string escape [] = ([], [])
read_string true (c ∷ s) =
    let rest : Bytes × Bytes = read_string false s in (unescape c ∷ rest.0, rest.1)
read_string false (c ∷ s) =
    let escaped = read_string true s in
    let rest = read_string false s in
    let plain : Bytes × Bytes = (c ∷ rest.0, rest.1) in
    if c == b'\\' then escaped else if c == b'"' then ([], c ∷ s) else plain
