-- ===== src/Http.antt =====
-- src/modsecurity_proxy_wasm.cc: what the filter reads off methods, statuses and headers.
use modsecurity_proxy_wasm.Base.{
  ℕ, zero, suc, ◌+◌, ◌-◌, ◌*◌, ◌%◌, ◌^◌, Bool, true, false, not, ◌&&◌, ◌||◌, [], ◌∷◌, ◌++◌, Option,
  none, some, ltb, leb, ◌==◌, if◌then◌else◌, length, drop, take, map, ℤ, pos, negsuc,
}
use modsecurity_proxy_wasm.Text.{
  Bytes, codes, equal, is_empty, contains, is_space, is_digit, to_lower,
}

unfoldable pub method_may_have_body : Bytes → Bool
unfolding equal
method_may_have_body m =
    not (equal m (codes "GET"))
    && not (equal m (codes "HEAD"))
    && not (equal m (codes "OPTIONS"))
    && not (equal m (codes "TRACE"))

unfoldable pub status_may_have_body : ℤ → Bool
status_may_have_body (negsuc n) = false
status_may_have_body (pos n) = if ltb n 200 then false else not (n == 204) && not (n == 304)

unfoldable pub header_name_equals : Bytes → Bytes → Bool
unfolding to_lower
header_name_equals [] [] = true
header_name_equals (x ∷ xs) (y ∷ ys) = to_lower x == to_lower y && header_name_equals xs ys
header_name_equals _ _ = false

unfoldable pub is_chunked_transfer_encoding : Bytes → Bool
unfolding to_lower contains
is_chunked_transfer_encoding value = contains (map to_lower value) (codes "chunked")

-- The value of the leading digits.
digits_from : ℕ → Bytes → ℕ
digits_from n [] = n
digits_from n (c ∷ s) =
    let more = digits_from (n * 10 + (c - b'0')) s in if is_digit c then more else n

-- White space, a sign, at least one digit: the sign and the value, as strtoull and strtol read it.
skip_spaces : Bytes → Bytes
skip_spaces [] = []
skip_spaces (c ∷ s) = let rest = skip_spaces s in if is_space c then rest else c ∷ s

number_of : Bool → Bytes → Option (Bool × ℕ)
unfolding digits_from
number_of negative [] = none
number_of negative (c ∷ s) = if is_digit c then some (negative, digits_from 0 (c ∷ s)) else none

signed_number : Bytes → Option (Bool × ℕ)
unfolding number_of
signed_number [] = none
signed_number (c ∷ s) =
    if c == b'-'
    then number_of true s
    else if c == b'+'
    then number_of false s
    else number_of false (c ∷ s)

unfoldable pub leading_number : Bytes → Option (Bool × ℕ)
unfolding skip_spaces signed_number
leading_number s = signed_number (skip_spaces s)

-- `strtoull`: saturates above, and a minus sign negates the unsigned value.
abbrev to_u64 : Bool → ℕ → ℕ
to_u64 negative v =
    if leb (2 ^ 64) v then 2 ^ 64 - 1 else if negative then (2 ^ 64 - v) % 2 ^ 64 else v

-- `size_t` has 32 bits on wasm32.
unfoldable pub parse_content_length : Bytes → ℕ
unfolding leading_number
parse_content_length cl = elim (leading_number cl) [
  | none ↦ 0
  | some (negative, v) ↦ to_u64 negative v % 2 ^ 32
]

-- `strtol`: `long` has 32 bits on wasm32 and the value saturates.
abbrev to_long : Bool → ℕ → ℤ
to_long false v = pos (if ltb v (2 ^ 31) then v else 2 ^ 31 - 1)
to_long true zero = pos 0
to_long true (suc v) = negsuc (if ltb v (2 ^ 31) then v else 2 ^ 31 - 1)

-- The `:status` header, on the code so far.
unfoldable pub parse_status : ℤ → Bytes → ℤ
unfolding leading_number
parse_status code value = elim (leading_number value) [
  | none ↦ code
  | some (negative, v) ↦ to_long negative v
]

-- `protocol.substr(5)` behind "HTTP/" or "http/", with the first letter in either case
abbrev without_prefix : Bytes → Bytes
without_prefix p =
    if leb 5 (length p)
      && equal (map to_lower (take 1 p)) (codes "h")
      && (equal (take 4 (drop 1 p)) (codes "TTP/") || equal (take 4 (drop 1 p)) (codes "ttp/"))
    then drop 5 p
    else p

version_token : Bytes → Bytes
unfolding equal
version_token p =
    if is_empty p
    then codes "1.1"
    else if equal p (codes "2")
    then codes "2.0"
    else if equal p (codes "3")
    then codes "3.0"
    else p

unfoldable pub modsec_http_version_token : Bytes → Bytes
unfolding version_token equal to_lower
modsec_http_version_token p = version_token (without_prefix p)

unfoldable pub modsec_http_protocol : Bytes → Bytes
modsec_http_protocol token = codes "HTTP/" ++ token
