-- ===== src/Functions/Arith.antt =====
-- `arith()` and `inc_dec()` of scripts/kconfig/kconfigfunctions.py. The name of a function is the
-- one that it has in Kconfig files.
pub mod Laws
pub mod Sound
use text.Mathlib.Text.{◌==◌ as str_eq}
use ve_root.Base.{
  ℕ, zero, suc, ◌+◌, ◌-◌, ◌%◌, Bool, true, false, String, List, [], ◌∷◌, ◌++◌, map, ltb, leb,
  if◌then◌else◌, ℤ, pos, negsuc, ◌+ℤ◌, ◌-ℤ◌, ◌*ℤ◌, neg_ℤ, leb_ℤ, Text,
}
use ve_root.Functions.{
  Error, value_error, type_error, zero_division_error, assertion_error, Result, ok, raises, ◌>>=◌,
  or_raise,
}
use ve_root.Functions.Numbers.{str, hex, int_any}
use ve_root.Functions.Lists.{split, join}

-- A number of Python: an integer, or a float of the type `Float`.
pub data Num (Float : Type 0) : Type 0 where
  int : ℤ → Num Float
  float : Float → Num Float

-- What Python does with floats: `a / b`, and `int(a)`.
pub record Floats (Float : Type 0) : Type 0 where
  pub truediv : Num Float → ℤ → Result (Num Float)
  pub trunc : Float → Result ℤ

-- `a % b` for a positive `b`.
abbrev mod_pos : ℤ → ℕ → ℤ
mod_pos (pos n) b = pos (n % b)
mod_pos (negsuc n) b = pos (b - 1 - n % b)

-- `operator.mod`: the result has the sign of `b`.
pub mod_ℤ : ℤ → ℤ → Result ℤ
mod_ℤ a (pos zero) = raises zero_division_error
mod_ℤ a (pos (suc b)) = ok (mod_pos a (suc b))
mod_ℤ a (negsuc b) = ok (neg_ℤ (mod_pos (neg_ℤ a) (suc b)))

abbrev pub max_ℤ : ℤ → ℤ → ℤ
max_ℤ a b = if leb_ℤ b a then a else b

abbrev pub min_ℤ : ℤ → ℤ → ℤ
min_ℤ a b = if leb_ℤ a b then a else b

-- The texts of the numbers, those of the comma-separated lists one by one.
unfoldable pub items : List Text → List Text
items [] = []
items (arg ∷ args) = split b',' arg ++ items args

-- `int(val, base=0)`
abbrev pub read : Text → Result ℤ
read t = or_raise value_error (int_any t)

-- `functools.reduce()`, which reads each number right before it is used.
pub reduce_from : {A : Type 0} → (A → ℤ → Result A) → A → List Text → Result A
reduce_from op a [] = ok a
reduce_from op a (t ∷ ts) = read t >>= λ z. op a z >>= λ b. reduce_from op b ts

pub reduce : {A : Type 0} → (A → ℤ → Result A) → (ℤ → A) → List Text → Result A
unfolding reduce_from
reduce op start [] = raises type_error
reduce op start (t ∷ ts) = read t >>= λ z. reduce_from op (start z) ts

abbrev total : (ℤ → ℤ → ℤ) → ℤ → ℤ → Result ℤ
total f a b = ok (f a b)

pub whole : (ℤ → ℤ → Result ℤ) → List Text → Result ℤ
unfolding reduce
whole op ts = reduce op (λ z. z) ts

module _ {Float : Type 0} (floats : Floats Float) where
  to_int : Num Float → Result ℤ
  to_int (int z) = ok z
  to_int (float x) = floats.trunc x

  -- `int(functools.reduce(operator.truediv, intarray))`
  pub divide : List Text → Result ℤ
  unfolding to_int reduce
  divide ts = reduce floats.truediv int ts >>= to_int

  -- The number that each function computes, with what prints it.
  compute : String → List Text → Result Text
  unfolding divide whole mod_ℤ
  compute name ts =
      let dec : Result ℤ → Result Text = λ r. r >>= λ z. ok (str z) in
      let hexa : Result ℤ → Result Text = λ r. r >>= λ z. ok (hex z) in
      if str_eq name "add"
      then dec (whole (total ◌+ℤ◌) ts)
      else if str_eq name "add_hex"
      then hexa (whole (total ◌+ℤ◌) ts)
      else if str_eq name "sub"
      then dec (whole (total ◌-ℤ◌) ts)
      else if str_eq name "sub_hex"
      then hexa (whole (total ◌-ℤ◌) ts)
      else if str_eq name "mul"
      then dec (whole (total ◌*ℤ◌) ts)
      else if str_eq name "mul_hex"
      then hexa (whole (total ◌*ℤ◌) ts)
      else if str_eq name "div"
      then dec (divide ts)
      else if str_eq name "div_hex"
      then hexa (divide ts)
      else if str_eq name "mod"
      then dec (whole mod_ℤ ts)
      else if str_eq name "mod_hex"
      then hexa (whole mod_ℤ ts)
      else if str_eq name "max"
      then dec (whole (total max_ℤ) ts)
      else if str_eq name "max_hex"
      then hexa (whole (total max_ℤ) ts)
      else if str_eq name "min"
      then dec (whole (total min_ℤ) ts)
      else if str_eq name "min_hex"
      then hexa (whole (total min_ℤ) ts)
      else raises assertion_error

  unfoldable pub arith : String → List Text → Result Text
  unfolding compute
  arith name args = compute name (items args)

unfoldable pub read_all : List Text → Result (List ℤ)
read_all [] = ok []
read_all (t ∷ ts) = read t >>= λ z. read_all ts >>= λ zs. ok (z ∷ zs)

step_each : String → List ℤ → Result (List Text)
step_each name zs =
    if str_eq name "inc"
    then ok (map (λ z. str (z +ℤ pos 1)) zs)
    else if str_eq name "inc_hex"
    then ok (map (λ z. hex (z +ℤ pos 1)) zs)
    else if str_eq name "dec"
    then ok (map (λ z. str (z -ℤ pos 1)) zs)
    else if str_eq name "dec_hex"
    then ok (map (λ z. hex (z -ℤ pos 1)) zs)
    else raises assertion_error

-- An unknown name fails before any number is read.
unfoldable pub inc_dec : String → List Text → Result Text
unfolding step_each read_all
inc_dec name args = step_each name [] >>= λ _.
    read_all (items args) >>= λ zs. step_each name zs >>= λ ts. ok (join b',' ts)
