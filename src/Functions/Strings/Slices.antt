-- ===== src/Functions/Strings/Slices.antt =====
-- The parts of a text that `substring()` gives (scripts/kconfig/kconfigfunctions.py).
use ve_root.Base.{
  ℕ, ◌-◌, ◌≤◌, min, ◌≡◌, refl, none, some, ◌++◌, length, drop, take-append-drop, length-take,
  length-drop, ℤ, pos, negsuc, Text, codes, arith,
}
use ve_root.Functions.{ok}
use ve_root.Functions.Numbers.{int_decimal, str}
use ve_root.Functions.Numbers.RoundTrip.{int_decimal-str}
use ve_root.Functions.Strings.{slice_index, slice, slice_from, substring}

slice_index-le : (len : ℕ) (i : ℤ) → slice_index len i ≤ len
unfolding slice_index
slice_index-le len (pos i) = omega arith
slice_index-le len (negsuc i) = omega arith

slice_index_zero : (len : ℕ) → slice_index len (pos 0) ≡ 0
unfolding slice_index
slice_index_zero len = omega arith

int_decimal_zero : int_decimal (codes "0") ≡ some (pos 0)
unfolding int_decimal
int_decimal_zero = refl

slice-append : (string : Text) (k : ℤ) → slice string (pos 0) k ++ slice_from string k ≡ string
unfolding slice slice_from
slice-append string k =
    let n = slice_index (length string) k in
    let zero_start : slice_index (length string) (pos 0) ≡ 0 = slice_index_zero (length string) in
    let all : n - 0 ≡ n = omega arith in rw (zero_start, all) (take-append-drop n string)

length-slice :
    (string : Text) (i j : ℕ)
    → i ≤ j
    → j ≤ length string
    → length (slice string (pos i) (pos j)) ≡ j - i
unfolding slice slice_index
length-slice string i j h k =
    let i_min : min i (length string) ≡ i = omega arith in
    let j_min : min j (length string) ≡ j = omega arith in
    rw (i_min, j_min, length-take (j - i) (drop i string), length-drop i string) (omega arith)

-- The parts of a text before and from an index give the whole text, also for a negative index.
pub substring-append :
    (string : Text) (k : ℤ)
    → (before : Text) × (after : Text) × (substring string (codes "0") (some (str k)) ≡ ok before)
      × (substring string (str k) none ≡ ok after)
      × (before ++ after ≡ string)
unfolding substring
substring-append string k = (
  slice string (pos 0) k,
  slice_from string k,
  rw (int_decimal-str k, int_decimal_zero),
  rw (int_decimal-str k),
  slice-append string k,
)

-- With indices in order and within the text, the part of a text has the length that lies between
-- them.
pub length-substring :
    (string : Text) (i j : ℕ)
    → i ≤ j
    → j ≤ length string
    → (part : Text) × (substring string (str (pos i)) (some (str (pos j))) ≡ ok part)
      × (length part ≡ j - i)
unfolding substring
length-substring string i j h k = (
  slice string (pos i) (pos j),
  rw (int_decimal-str (pos i), int_decimal-str (pos j)),
  length-slice string i j h k,
)
