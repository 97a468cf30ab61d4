-- ===== src/Functions/Numbers/RoundTrip.antt =====
-- Integers that are printed and read again.
use ve_root.Base.{
  ℕ, zero, suc, ◌≤◌, ◌≡◌, refl, false, some, [], ◌∷◌, ◌==◌, ℤ, pos, negsuc, Text, Every, arith,
}
use ve_root.Functions.Numbers.{
  digits, str, hex, is_space, strip_left, strip_right, read_digits, after_prefix, read_prefixed,
  read_signed, int_decimal, int_any,
}
use ve_root.Functions.Numbers.Digits.{
  read_digits-digits, IsDigit, BeginsWell, digits-BeginsWell, strip-plain, digits_no_space,
  IsNumber, digits-IsNumber, read_signed-plain,
}

read_prefixed_zero : read_prefixed (digits 10 0) ≡ some 0
unfolding read_prefixed digits
read_prefixed_zero = refl

read_prefixed-plain : (s : Text) → BeginsWell s → read_prefixed s ≡ read_digits 10 s (0, false)
unfolding read_prefixed
read_prefixed-plain [] h = absurd h
read_prefixed-plain (c ∷ []) h = refl
read_prefixed-plain (c ∷ (d ∷ s)) h = ground arith

read_prefixed-digits : (n : ℕ) → read_prefixed (digits 10 n) ≡ some n
read_prefixed-digits zero = read_prefixed_zero
read_prefixed-digits (suc n) =
    rw (read_prefixed-plain (digits 10 (suc n)) (digits-BeginsWell n))
      (read_digits-digits 10 (suc n) (omega arith) (omega arith))

after_prefix-plain : (s : Text) → IsNumber s → after_prefix 16 s ≡ read_digits 16 s (0, false)
unfolding after_prefix
after_prefix-plain [] h = absurd (h.ne_nil refl)
after_prefix-plain (c ∷ s) h = let d = h.all_digits.0 in ground arith

read_prefixed_hex : (n : ℕ) → read_prefixed (b'0' ∷ (b'x' ∷ digits 16 n)) ≡ some n
unfolding read_prefixed
read_prefixed_hex n =
    rw (after_prefix-plain (digits 16 n) (digits-IsNumber 16 n (omega arith) (omega arith)))
      (read_digits-digits 16 n (omega arith) (omega arith))

-- The text of an integer: an optional minus, an optional prefix, and digits.
strip_nat :
    (base n : ℕ) → 2 ≤ base → base ≤ 16 → strip_right (strip_left (digits base n)) ≡ digits base n
strip_nat base n h k =
    strip-plain (digits base n)
      (digits_no_space (digits base n) (digits-IsNumber base n h k).all_digits)

strip_minus :
    (s : Text) → Every (λ c. is_space c ≡ false) s → strip_right (strip_left (b'-' ∷ s)) ≡ b'-' ∷ s
unfolding is_space
strip_minus s h = strip-plain (b'-' ∷ s) (refl, h)

ten_no_space : (base n : ℕ) → 2 ≤ base → base ≤ 16 → Every (λ c. is_space c ≡ false) (digits base n)
ten_no_space base n h k = digits_no_space (digits base n) (digits-IsNumber base n h k).all_digits

-- A number printed in decimal is read back, with the base left open.
pub int_any-str : (z : ℤ) → int_any (str z) ≡ some z
unfolding int_any str
int_any-str (pos n) = rw (
  strip_nat 10 n (omega arith) (omega arith),
  read_signed-plain read_prefixed (digits 10 n) (digits-IsNumber 10 n (omega arith) (omega arith)),
  read_prefixed-digits n,
)
int_any-str (negsuc n) =
    rw (strip_minus (digits 10 (suc n)) (ten_no_space 10 (suc n) (omega arith) (omega arith)))
      (unfold read_signed in (rw (read_prefixed-digits (suc n))))

-- A number printed in hexadecimal is read back, with the base left open.
pub int_any-hex : (z : ℤ) → int_any (hex z) ≡ some z
unfolding int_any hex read_signed is_space
int_any-hex (pos n) = rw (
  strip-plain (b'0' ∷ (b'x' ∷ digits 16 n))
      (refl, (refl, ten_no_space 16 n (omega arith) (omega arith))),
  read_prefixed_hex n,
)
int_any-hex (negsuc n) = rw (
  strip-plain (b'-' ∷ (b'0' ∷ (b'x' ∷ digits 16 (suc n))))
      (refl, (refl, (refl, ten_no_space 16 (suc n) (omega arith) (omega arith)))),
  read_prefixed_hex (suc n),
)

no_comma : (s : Text) → Every IsDigit s → Every (λ d. (d == b',') ≡ false) s
no_comma [] h = tt
no_comma (c ∷ s) h = (let d = h.0 in ground arith, no_comma s h.1)

pub str-Lacks_comma : (z : ℤ) → Every (λ d. (d == b',') ≡ false) (str z)
unfolding str
str-Lacks_comma (pos n) =
    no_comma (digits 10 n) (digits-IsNumber 10 n (omega arith) (omega arith)).all_digits
str-Lacks_comma (negsuc n) = (
  refl,
  no_comma (digits 10 (suc n)) (digits-IsNumber 10 (suc n) (omega arith) (omega arith)).all_digits,
)

-- A number printed in decimal is read back in base 10.
pub int_decimal-str : (z : ℤ) → int_decimal (str z) ≡ some z
unfolding int_decimal str
int_decimal-str (pos n) = rw (
  strip_nat 10 n (omega arith) (omega arith),
  read_signed-plain (λ t. read_digits 10 t (0, false)) (digits 10 n)
      (digits-IsNumber 10 n (omega arith) (omega arith)),
  read_digits-digits 10 n (omega arith) (omega arith),
)
int_decimal-str (negsuc n) =
    rw (strip_minus (digits 10 (suc n)) (ten_no_space 10 (suc n) (omega arith) (omega arith)))
      (unfold read_signed in (rw (read_digits-digits 10 (suc n) (omega arith) (omega arith))))
