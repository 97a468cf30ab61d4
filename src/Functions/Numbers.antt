-- ===== src/Functions/Numbers.antt =====
-- `str()`, `hex()` and `int()` of Python, as scripts/kconfig/kconfigfunctions.py calls them. Texts
-- that are read as numbers are ASCII.
pub mod Digits
pub mod RoundTrip
use ve_root.Base.{
  ℕ, zero, suc, ◌+◌, ◌-◌, ◌*◌, ◌/◌, ◌%◌, Bool, true, false, ◌&&◌, ◌||◌, Option, none, some, ◌>>=◌,
  List, [], ◌∷◌, ltb, leb, ◌==◌, if◌then◌else◌, ℤ, pos, negsuc, neg_ℤ, Text,
}

abbrev pub digit : ℕ → ℕ
digit d = if ltb d 10 then b'0' + d else b'a' + (d - 10)

-- The digits of `n` in front of `out`, on fuel. `n + 1` rounds are enough in any base from 2 on.
pub emit : ℕ → ℕ → ℕ → Text → Text
emit base zero n out = out
emit base (suc fuel) n out = elim (ltb n base) [
  | true ↦ digit n ∷ out
  | false ↦ emit base fuel (n / base) (digit (n % base) ∷ out)
]

pub digits : ℕ → ℕ → Text
unfolding emit
digits base n = emit base (suc n) n []

-- `str()`
unfoldable pub str : ℤ → Text
unfolding digits
str (pos n) = digits 10 n
str (negsuc n) = b'-' ∷ digits 10 (suc n)

-- `hex()`
unfoldable pub hex : ℤ → Text
unfolding digits
hex (pos n) = b'0' ∷ (b'x' ∷ digits 16 n)
hex (negsuc n) = b'-' ∷ (b'0' ∷ (b'x' ∷ digits 16 (suc n)))

pub is_space : ℕ → Bool
is_space c = c == b' ' || (leb 9 c && leb c 13 || leb 28 c && leb c 31)

pub strip_left : Text → Text
unfolding is_space
strip_left [] = []
strip_left (c ∷ s) = let rest = strip_left s in if is_space c then rest else c ∷ s

abbrev keep_end : ℕ → Text → Text
unfolding is_space
keep_end c [] = if is_space c then [] else c ∷ []
keep_end c (d ∷ s) = c ∷ (d ∷ s)

pub strip_right : Text → Text
unfolding keep_end
strip_right [] = []
strip_right (c ∷ s) = keep_end c (strip_right s)

-- The value of a digit; 99 stands for none.
abbrev pub digit_value : ℕ → ℕ
digit_value c =
    if leb b'0' c && leb c b'9'
    then c - b'0'
    else if leb b'a' c && leb c b'z'
    then c - b'a' + 10
    else if leb b'A' c && leb c b'Z'
    then c - b'A' + 10
    else 99

-- One character: the number so far, and whether the character before was a digit.
pub read_digit : ℕ → ℕ → ℕ × Bool → Option (ℕ × Bool)
read_digit base c (n, after_digit) =
    if c == b'_'
    then (if after_digit then some (n, false) else none)
    else if ltb (digit_value c) base
    then some (n * base + digit_value c, true)
    else none

abbrev ends : ℕ × Bool → Option ℕ
ends (n, true) = some n
ends (n, false) = none

pub read_digits : ℕ → Text → ℕ × Bool → Option ℕ
unfolding read_digit
read_digits base [] st = ends st
read_digits base (c ∷ s) st = read_digit base c st >>= read_digits base s

-- One `_` is allowed behind a prefix.
after_prefix : ℕ → Text → Option ℕ
unfolding read_digits
after_prefix base [] = none
after_prefix base (c ∷ s) =
    if c == b'_' then read_digits base s (0, false) else read_digits base (c ∷ s) (0, false)

if_zero : ℕ → Option ℕ
if_zero zero = some 0
if_zero (suc n) = none

-- Base 0: the prefix says the base, and a decimal number other than 0 does not begin with 0.
read_prefixed : Text → Option ℕ
unfolding read_digits after_prefix if_zero
read_prefixed (c ∷ (d ∷ s)) =
    if c == b'0'
    then (if d == b'x' || d == b'X'
        then after_prefix 16 s
        else if d == b'o' || d == b'O'
        then after_prefix 8 s
        else if d == b'b' || d == b'B'
        then after_prefix 2 s
        else (read_digits 10 (c ∷ (d ∷ s)) (0, false) >>= if_zero))
    else read_digits 10 (c ∷ (d ∷ s)) (0, false)
read_prefixed s = read_digits 10 s (0, false)

pub read_signed : (Text → Option ℕ) → Text → Option ℤ
read_signed read [] = none
read_signed read (c ∷ s) =
    if c == b'-'
    then (read s >>= λ n. some (neg_ℤ (pos n)))
    else if c == b'+'
    then (read s >>= λ n. some (pos n))
    else (read (c ∷ s) >>= λ n. some (pos n))

-- `int(s)`; `none` is a `ValueError`.
unfoldable pub int_decimal : Text → Option ℤ
unfolding read_signed read_digits strip_left strip_right
int_decimal s = read_signed (λ t. read_digits 10 t (0, false)) (strip_right (strip_left s))

-- `int(s, base=0)`
unfoldable pub int_any : Text → Option ℤ
unfolding read_signed read_prefixed strip_left strip_right
int_any s = read_signed read_prefixed (strip_right (strip_left s))
