-- ===== src/Functions/Strings.antt =====
-- `normalize_upper()`, `shields_list_contains()` and `substring()` of
-- scripts/kconfig/kconfigfunctions.py.
pub mod Slices
pub mod Sound
pub mod Names
use ve_root.Base.{
  ℕ, zero, suc, ◌+◌, ◌-◌, min, Bool, true, false, ◌&&◌, ◌||◌, Option, none, some, List, [], ◌∷◌,
  map, length, take, drop, ltb, leb, ◌==◌, if◌then◌else◌, ℤ, pos, negsuc, Text, text_eq, codes,
}
use ve_root.Functions.{Result, ok, raises, ◌>>=◌, or_raise, value_error}
use ve_root.Functions.Numbers.{int_decimal}
use ve_root.Functions.Lists.{split}

pub is_lower : ℕ → Bool
is_lower c = leb b'a' c && leb c b'z'

-- `[a-zA-Z0-9_]`
pub is_name : ℕ → Bool
unfolding is_lower
is_name c = is_lower c || (leb b'A' c && leb c b'Z' || (leb b'0' c && leb c b'9' || c == b'_'))

-- A character is replaced if it is not of that kind, and converted to upper case.
pub upper_name : ℕ → ℕ
unfolding is_name is_lower
upper_name c = if is_name c then (if is_lower c then c - 32 else c) else b'_'

unfoldable pub normalize_upper : Text → Text
unfolding upper_name
normalize_upper string = map upper_name string

abbrev pub is_member : Text → List Text → Bool
is_member t [] = false
is_member t (u ∷ us) = text_eq t u || is_member t us

-- The first argument is the environment variable `SHIELD_AS_LIST`.
unfoldable pub shields_list_contains : Option Text → Text → Text
shields_list_contains none shield = codes "n"
shields_list_contains (some shields) shield =
    if is_member shield (split b';' shields) then codes "y" else codes "n"

-- An index of a slice: a negative one counts from the end, and none lies outside the text.
pub slice_index : ℕ → ℤ → ℕ
slice_index len (pos i) = min i len
slice_index len (negsuc i) = len - suc i

-- `string[start:stop]` and `string[start:]`
pub slice : Text → ℤ → ℤ → Text
unfolding slice_index
slice string start stop =
    let i = slice_index (length string) start in
    take (slice_index (length string) stop - i) (drop i string)

pub slice_from : Text → ℤ → Text
unfolding slice_index
slice_from string start = drop (slice_index (length string) start) string

unfoldable pub substring : Text → Text → Option Text → Result Text
unfolding slice slice_from
substring string start none =
    or_raise value_error (int_decimal start) >>= λ i. ok (slice_from string i)
substring string start (some stop) = or_raise value_error (int_decimal start) >>= λ i.
    or_raise value_error (int_decimal stop) >>= λ j. ok (slice string i j)
