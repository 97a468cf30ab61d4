-- ===== src/Functions/Arith/Sound.antt =====
-- How the arithmetic functions of scripts/kconfig/kconfigfunctions.py may end.
use ve_root.Base.{zero, suc, List, [], ◌∷◌, map, ℤ, pos, negsuc, Text}
use ve_root.Functions.{Result, ok, ◌>>=◌, value_error}
use ve_root.Functions.Proper.{Sane, returned, plain, Sane-bind, Sane-or_raise}
use ve_root.Functions.Numbers.{int_any}
use ve_root.Functions.Arith.{
  Num, int, float, Floats, items, read, reduce_from, reduce, total, whole, mod_ℤ, divide, to_int,
  read_all,
}

pub Sane-read : (t : Text) → Sane (read t)
Sane-read t = Sane-or_raise value_error (int_any t) tt

module _ {A : Type 0} {op : A → ℤ → Result A} (h : (a : A) (z : ℤ) → Sane (op a z)) where
  Sane-reduce_from : (a : A) (ts : List Text) → Sane (reduce_from op a ts)
  unfolding reduce_from
  Sane-reduce_from a [] = returned
  Sane-reduce_from a (t ∷ ts) =
      Sane-bind (Sane-read t) λ z. Sane-bind (h a z) λ b. Sane-reduce_from b ts

  Sane-reduce : (start : ℤ → A) (ts : List Text) → Sane (reduce op start ts)
  unfolding reduce
  Sane-reduce start [] = plain tt
  Sane-reduce start (t ∷ ts) = Sane-bind (Sane-read t) λ z. Sane-reduce_from (start z) ts

Sane-total : (f : ℤ → ℤ → ℤ) (a b : ℤ) → Sane (total f a b)
Sane-total f a b = returned

Sane-mod_ℤ : (a b : ℤ) → Sane (mod_ℤ a b)
unfolding mod_ℤ
Sane-mod_ℤ a (pos zero) = plain tt
Sane-mod_ℤ a (pos (suc b)) = returned
Sane-mod_ℤ a (negsuc b) = returned

Sane-read_all : (ts : List Text) → Sane (read_all ts)
unfolding read_all
Sane-read_all [] = returned
Sane-read_all (t ∷ ts) = Sane-bind (Sane-read t) λ z. Sane-bind (Sane-read_all ts) λ zs. returned

module _ (print : ℤ → Text) where
  printed : {r : Result ℤ} → Sane r → Sane (r >>= λ z. ok (print z))
  printed returned = returned
  printed (plain h) = plain h

  pub Sane-fold :
      (f : ℤ → ℤ → ℤ) (args : List Text) → Sane (whole (total f) (items args) >>= λ z. ok (print z))
  unfolding whole
  Sane-fold f args = printed (Sane-reduce (Sane-total f) (λ z. z) (items args))

  pub Sane-mod : (args : List Text) → Sane (whole mod_ℤ (items args) >>= λ z. ok (print z))
  unfolding whole
  Sane-mod args = printed (Sane-reduce Sane-mod_ℤ (λ z. z) (items args))

  -- The functions that step each number by one.
  pub Sane-step :
      (f : ℤ → ℤ) (args : List Text) (g : List Text → Text)
      → Sane (read_all (items args) >>= λ zs. ok (g (map (λ z. print (f z)) zs)))
  Sane-step f args g = Sane-bind (Sane-read_all (items args)) λ zs. returned

-- Divisions and conversions of floats fail only as other operations do.
pub record IsFloats {Float : Type 0} (floats : Floats Float) : Type 0 where
  pub Sane-truediv : (a : Num Float) (b : ℤ) → Sane (floats.truediv a b)
  pub Sane-trunc : (x : Float) → Sane (floats.trunc x)

module _ {Float : Type 0} {floats : Floats Float} where
  Sane-to_int : IsFloats floats → (n : Num Float) → Sane (to_int floats n)
  unfolding to_int
  Sane-to_int h (int z) = returned
  Sane-to_int h (float x) = h.Sane-trunc x

  pub Sane-div :
      IsFloats floats
      → (print : ℤ → Text) (args : List Text)
      → Sane (divide floats (items args) >>= λ z. ok (print z))
  unfolding divide
  Sane-div h print args =
      printed print (Sane-bind (Sane-reduce h.Sane-truediv int (items args)) (Sane-to_int h))
