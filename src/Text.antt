-- ===== src/Text.antt =====
-- The operations of std::string and <cctype> that the program uses, on lists of bytes.
pub mod Laws
pub mod Lengths
use Prim.Native.Char.{code}
use Prim.Native.String.{String}
use modsecurity_proxy_wasm.Base.{
  ℕ, zero, suc, ◌+◌, ◌-◌, ◌/◌, ◌%◌, ◌≡◌, ◌↔◌, Bool, true, false, ◌&&◌, ◌||◌, List, [], ◌∷◌, Option,
  none, some, arith, ltb, leb, ◌==◌, if◌then◌else◌, length, take, drop, ℤ, pos, negsuc,
}

abbrev pub Bytes : Type 0
Bytes = List ℕ

-- The bytes of an ASCII literal.
abbrev pub codes : String → Bytes
codes String.[] = []
codes (String.◌∷◌ c s) = code c ∷ codes s

-- `a == b` on strings
unfoldable pub equal : Bytes → Bytes → Bool
equal [] [] = true
equal (x ∷ xs) (y ∷ ys) = x == y && equal xs ys
equal _ _ = false

-- `equal` decides equality of texts.
pub equal_iff : (s t : Bytes) → (equal s t ≡ true) ↔ (s ≡ t)
unfolding equal
equal_iff [] [] = ground arith
equal_iff [] (d ∷ t) = ground arith
equal_iff (c ∷ s) [] = ground arith
equal_iff (c ∷ s) (d ∷ t) = ground (arith, equal_iff s t)

-- `s.empty()`
abbrev pub is_empty : Bytes → Bool
is_empty [] = true
is_empty (c ∷ s) = false

-- `s.rfind(p, 0) == 0`
unfoldable pub starts_with : Bytes → Bytes → Bool
starts_with [] s = true
starts_with (x ∷ p) [] = false
starts_with (x ∷ p) (y ∷ s) = x == y && starts_with p s

-- The offset of the first occurrence of `p` in `s`.
unfoldable pub find_in : Bytes → Bytes → Option ℕ
unfolding starts_with
find_in p [] = if is_empty p then some 0 else none
find_in p (c ∷ s) =
    let later : Option ℕ = elim (find_in p s) [ none ↦ none | some k ↦ some (suc k) ] in
    if starts_with p (c ∷ s) then some 0 else later

abbrev shift : ℕ → Option ℕ → Option ℕ
shift i none = none
shift i (some k) = some (i + k)

-- `s.find(p, i)`; `none` is npos.
unfoldable pub find : Bytes → Bytes → ℕ → Option ℕ
unfolding find_in
find s p i = if leb i (length s) then shift i (find_in p (drop i s)) else none

-- `s.find(p) != npos`
unfoldable pub contains : Bytes → Bytes → Bool
unfolding find_in
contains s p = elim (find_in p s) [ none ↦ false | some k ↦ true ]

-- `s.substr(i, n)` for `i <= s.size()`
abbrev pub substr : Bytes → ℕ → ℕ → Bytes
substr s i n = take n (drop i s)

-- `std::isspace` in the C locale
unfoldable pub is_space : ℕ → Bool
is_space c = c == b' ' || leb 9 c && leb c 13

unfoldable pub trim_start : Bytes → Bytes
trim_start [] = []
trim_start (c ∷ s) = let rest = trim_start s in if is_space c then rest else c ∷ s

unfoldable pub trim_end : Bytes → Bytes
trim_end [] = []
trim_end (c ∷ s) = let rest = trim_end s in if is_empty rest && is_space c then [] else c ∷ rest

-- `trim`
abbrev pub trim : Bytes → Bytes
trim s = trim_end (trim_start s)

unfoldable pub ends_with : Bytes → Bytes → Bool
ends_with s p = starts_with p (drop (length s - length p) s) && leb (length p) (length s)

-- The text from the first occurrence of `p` on, and the text behind it.
unfoldable pub search : Bytes → Bytes → Option Bytes
search p [] = if is_empty p then some [] else none
search p (c ∷ s) = let later = search p s in if starts_with p (c ∷ s) then some (c ∷ s) else later

abbrev pub behind : Bytes → Bytes → Option Bytes
behind p s = elim (search p s) [ none ↦ none | some t ↦ some (drop (length p) t) ]

-- `s.find(b)`: the text in front of the first byte `b`, and what is behind it.
unfoldable pub split_at : ℕ → Bytes → Option (Bytes × Bytes)
split_at b [] = none
split_at b (c ∷ s) =
    let rest : Option (Bytes × Bytes) = elim (split_at b s) [
      | none ↦ none
      | some (x, y) ↦ some (c ∷ x, y)
    ] in
    if c == b then some ([], s) else rest

-- `find_first_not_of`: the text without the leading bytes that pass the test.
unfoldable pub skip_while : (ℕ → Bool) → Bytes → Bytes
skip_while test [] = []
skip_while test (c ∷ s) = let rest = skip_while test s in if test c then rest else c ∷ s

-- `std::isdigit`
unfoldable pub is_digit : ℕ → Bool
is_digit c = leb b'0' c && leb c b'9'

-- `std::isalnum` in the C locale
unfoldable pub is_alnum : ℕ → Bool
unfolding is_digit
is_alnum c = is_digit c || leb b'a' c && leb c b'z' || leb b'A' c && leb c b'Z'

-- `std::tolower` in the C locale
unfoldable pub to_lower : ℕ → ℕ
to_lower c = if leb b'A' c && leb c b'Z' then c + 32 else c

-- The digits of `n`, in front of `rest`; the fuel is above the number of digits.
decimal_onto : ℕ → ℕ → Bytes → Bytes
decimal_onto zero n rest = rest
decimal_onto (suc f) n rest =
    let digits = (b'0' + n % 10) ∷ rest in
    let more = decimal_onto f (n / 10) digits in if ltb n 10 then digits else more

-- `std::to_string` of an unsigned and of a signed integer
unfoldable pub decimal : ℕ → Bytes
unfolding decimal_onto
decimal n = decimal_onto (suc n) n []

unfoldable pub decimal_int : ℤ → Bytes
unfolding decimal
decimal_int (pos n) = decimal n
decimal_int (negsuc n) = b'-' ∷ decimal (suc n)
