-- ===== src/Base/Options.antt =====
-- What holds of the result of a chain of fallible steps.
use mathlib.Core.Path.{◌≡◌, refl, subst}
use mathlib.Core.Bool.{Bool, true, false}
use mathlib.Core.Option
use mathlib.Core.Option.{Option, none, some}
use ve_root.Base.Tests.{if◌then◌else◌}

-- The chain of two steps that may fail, for `do` blocks.
infixl 5 ◌>>=◌
abbrev pub ◌>>=◌ {ℓ κ} : {A : Type ℓ} {B : Type κ} → Option A → (A → Option B) → Option B
none >>= f = none
some a >>= f = f a

-- Every result has the property. `none` has none.
abbrev pub Ensures {ℓ κ} : {A : Type ℓ} → (A → Type κ) → Option A → Type (ℓ ⊔ κ)
Ensures {A} P o = (a : A) → o ≡ some a → P a

module _ {ℓ κ μ} {A : Type ℓ} {B : Type κ} where
  pub Ensures-map :
      (P : B → Type μ) (f : A → B) (o : Option A)
      → Ensures (λ a. P (f a)) o
      → Ensures P (Option.map f o)
  Ensures-map P f none h b e = cc
  Ensures-map P f (some a) h b e = let p : f a ≡ b = cc in subst P p (h a refl)

  pub Ensures-bind :
      (P : B → Type μ) (o : Option A) (f : A → Option B)
      → Ensures (λ a. Ensures P (f a)) o
      → Ensures P (o >>= f)
  Ensures-bind P none f h b e = cc
  Ensures-bind P (some a) f h b e = h a refl b e

module _ {ℓ κ} {A : Type ℓ} where
  pub Ensures-some : (P : A → Type κ) (a : A) → P a → Ensures P (some a)
  Ensures-some P a h b e = let p : a ≡ b = cc in subst P p h

  pub Ensures-none : (P : A → Type κ) → Ensures P none
  Ensures-none P b e = cc

  pub Ensures-if :
      (P : A → Type κ) (b : Bool) (o p : Option A)
      → Ensures P o
      → Ensures P p
      → Ensures P (if b then o else p)
  Ensures-if P true o p h k = h
  Ensures-if P false o p h k = k

  pub Ensures-elim : (P : A → Type κ) (o : Option A) {a : A} → Ensures P o → o ≡ some a → P a
  Ensures-elim P o {a} h e = h a e
