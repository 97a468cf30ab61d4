-- ===== src/Functions/Numbers/Digits.antt =====
-- The digits of a number, printed and read again.
use ve_root.Base.{
  ℕ, zero, suc, ◌+◌, ◌*◌, ◌/◌, ◌%◌, ◌<◌, ◌≤◌, ◌≡◌, ◌≢◌, refl, Bool, true, false, ◌&&◌, ◌||◌, Option,
  some, ◌>>=◌, [], ◌∷◌, ltb, leb, pos, Text, Bool-cases, inl, inr, Every, arith,
}
use ve_root.Functions.Numbers.{
  digit, emit, digits, is_space, strip_left, strip_right, read_digit, read_digits, read_signed,
}

read_digit-digit :
    (base d n : ℕ) (after_digit : Bool)
    → d < base
    → base ≤ 16
    → read_digit base (digit d) (n, after_digit) ≡ some (n * base + d, true)
unfolding read_digit
read_digit-digit base d n b h k = ground arith

div_mod : (n b : ℕ) → 0 < b → n / b * b + n % b ≡ n
div_mod n b h = grind arith

div_lt : (n b : ℕ) → 2 ≤ b → b ≤ n → n / b < n
div_lt n b h k = grind arith

mod_lt : (n b : ℕ) → 0 < b → n % b < b
mod_lt n b h = grind arith

emit_none : (base n : ℕ) (out : Text) → emit base 0 n out ≡ out
unfolding emit
emit_none base n out = refl

read_cons :
    (base d n : ℕ) (out : Text) (after_digit : Bool)
    → d < base
    → base ≤ 16
    → read_digits base (digit d ∷ out) (n, after_digit) ≡ read_digits base out (n * base + d, true)
unfolding read_digits
read_cons base d n out b h k = rw (read_digit-digit base d n b h k)

emit_small :
    (base fuel n : ℕ) (out : Text) → ltb n base ≡ true → emit base (suc fuel) n out ≡ digit n ∷ out
unfolding emit
emit_small base fuel n out h = rw (h, emit)

emit_large :
    (base fuel n : ℕ) (out : Text)
    → ltb n base ≡ false
    → emit base (suc fuel) n out ≡ emit base fuel (n / base) (digit (n % base) ∷ out)
unfolding emit
emit_large base fuel n out h = rw (h, emit)

-- The reader takes the digits of `n` as the number `n`.
read_digits-emit :
    (base fuel n : ℕ) (out : Text) (after_digit : Bool)
    → 2 ≤ base
    → base ≤ 16
    → n < fuel
    → read_digits base (emit base fuel n out) (0, after_digit) ≡ read_digits base out (n, true)
read_digits-emit base zero n out b h k enough = absurd (omega arith)
read_digits-emit base (suc fuel) n out b h k enough = elim (Bool-cases (ltb n base)) [
  | inl small ↦
      let e : 0 * base + n ≡ n = grind arith in
      rw (emit_small base fuel n out small) (rw (read_cons base n 0 out b (ground arith) k, e))
  | inr large ↦
      let le : base ≤ n = ground arith in
      let less : n / base < n = div_lt n base h le in
      let e = div_mod n base (omega arith) in
      rw (
        emit_large base fuel n out large,
        read_digits-emit base fuel (n / base) (digit (n % base) ∷ out) b h k (omega arith),
        read_cons base (n % base) (n / base) out true (mod_lt n base (omega arith)) k,
        e,
      )
]

pub read_digits-digits :
    (base n : ℕ) → 2 ≤ base → base ≤ 16 → read_digits base (digits base n) (0, false) ≡ some n
unfolding digits read_digits
read_digits-digits base n h k = read_digits-emit base (suc n) n [] false h k (omega arith)

-- What a text of digits begins with, and that it has no blanks.
abbrev pub IsDigit : ℕ → Type 0
IsDigit c = (leb b'0' c && leb c b'9' || leb b'a' c && leb c b'f') ≡ true

digit-IsDigit : (d : ℕ) → d < 16 → IsDigit (digit d)
digit-IsDigit d h = ground arith

emit-IsDigit :
    (base fuel n : ℕ) (out : Text)
    → 2 ≤ base
    → base ≤ 16
    → Every IsDigit out
    → Every IsDigit (emit base fuel n out)
emit-IsDigit base zero n out h k all = rw (emit_none base n out) all
emit-IsDigit base (suc fuel) n out h k all = elim (Bool-cases (ltb n base)) [
  | inl small ↦ rw (emit_small base fuel n out small) (digit-IsDigit n (ground arith), all)
  | inr large ↦
      let lt = mod_lt n base (omega arith) in
      rw (emit_large base fuel n out large) (
        emit-IsDigit base fuel (n / base) (digit (n % base) ∷ out) h k
          (digit-IsDigit (n % base) (omega arith), all))
]

-- The first digit of a number other than 0 is not 0.
abbrev pub BeginsWell : Text → Type 0
BeginsWell [] = ⊥
BeginsWell (c ∷ s) = (c ≢ b'0')

emit-BeginsWell :
    (base fuel n : ℕ) (out : Text)
    → 2 ≤ base
    → base ≤ 16
    → 0 < n
    → n < fuel
    → BeginsWell (emit base fuel n out)
emit-BeginsWell base zero n out h k some_n enough = absurd (omega arith)
emit-BeginsWell base (suc fuel) n out h k some_n enough = elim (Bool-cases (ltb n base)) [
  | inl small ↦ rw (emit_small base fuel n out small) (ground arith)
  | inr large ↦
      let le : base ≤ n = ground arith in
      let less : n / base < n = div_lt n base h le in
      let pos_quotient : 0 < n / base = grind arith in
      rw (emit_large base fuel n out large) (
        emit-BeginsWell base fuel (n / base) (digit (n % base) ∷ out) h k pos_quotient
          (omega arith))
]

pub digits-BeginsWell : (n : ℕ) → BeginsWell (digits 10 (suc n))
unfolding digits
digits-BeginsWell n =
    emit-BeginsWell 10 (suc (suc n)) (suc n) [] (omega arith) (omega arith) (omega arith)
      (omega arith)

-- A text with no blanks is its own strip.
strip_left-plain : (c : ℕ) (s : Text) → is_space c ≡ false → strip_left (c ∷ s) ≡ c ∷ s
unfolding strip_left
strip_left-plain c s h = rw h

strip_right-plain : (s : Text) → Every (λ c. is_space c ≡ false) s → strip_right s ≡ s
unfolding strip_right
strip_right-plain [] h = refl
strip_right-plain (c ∷ []) h = rw h.0
strip_right-plain (c ∷ (d ∷ s)) h = rw (strip_right-plain (d ∷ s) h.1)

pub strip-plain : (s : Text) → Every (λ c. is_space c ≡ false) s → strip_right (strip_left s) ≡ s
unfolding strip_left
strip-plain [] h = strip_right-plain [] h
strip-plain (c ∷ s) h = rw h.0 (strip_right-plain (c ∷ s) h)

digit_no_space : (c : ℕ) → IsDigit c → is_space c ≡ false
unfolding is_space
digit_no_space c h = ground arith

pub digits_no_space : (s : Text) → Every IsDigit s → Every (λ c. is_space c ≡ false) s
digits_no_space [] h = tt
digits_no_space (c ∷ s) h = (digit_no_space c h.0, digits_no_space s h.1)

-- What the readers need of the digits of a number.
pub record IsNumber (s : Text) : Type 0 where
  pub all_digits : Every IsDigit s
  pub ne_nil : s ≢ []

emit-ne_nil : (base fuel n : ℕ) (out : Text) → out ≢ [] → emit base fuel n out ≢ []
emit-ne_nil base zero n out h = rw (emit_none base n out) h
emit-ne_nil base (suc fuel) n out h = elim (Bool-cases (ltb n base)) [
  | inl small ↦ rw (emit_small base fuel n out small) (λ e. cc)
  | inr large ↦
      rw (emit_large base fuel n out large)
        (emit-ne_nil base fuel (n / base) (digit (n % base) ∷ out) (λ e. cc))
]

digits-ne_nil : (base n : ℕ) → digits base n ≢ []
unfolding digits
digits-ne_nil base n = elim (Bool-cases (ltb n base)) [
  | inl small ↦ rw (emit_small base n n [] small) (λ e. cc)
  | inr large ↦
      rw (emit_large base n n [] large)
        (emit-ne_nil base n (n / base) (digit (n % base) ∷ []) (λ e. cc))
]

pub digits-IsNumber : (base n : ℕ) → 2 ≤ base → base ≤ 16 → IsNumber (digits base n)
unfolding digits
digits-IsNumber base n h k = record {
  all_digits = emit-IsDigit base (suc n) n [] h k tt;
  ne_nil = digits-ne_nil base n;
}

module _ (read : Text → Option ℕ) where
  pub read_signed-plain :
      (s : Text) → IsNumber s → read_signed read s ≡ (read s >>= λ n. some (pos n))
  unfolding read_signed
  read_signed-plain [] h = absurd (h.ne_nil refl)
  read_signed-plain (c ∷ s) h = let d = h.all_digits.0 in ground arith
