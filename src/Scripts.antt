-- ===== src/Scripts.antt =====
-- The short scripts: scripts/kconfig/lint.py, scripts/kconfig/hardenconfig.py and
-- scripts/version-parse.py. A run has its events and returns, or raises an exception that ends it.
pub mod Harden
pub mod Lint
pub mod Version
pub mod Tests
use ve_root.Base.{
  ℕ, zero, suc, ◌+◌, ◌-◌, ◌/◌, Bool, true, false, Option, none, some, List, [], ◌∷◌, ◌++◌, length,
  Text,
}

-- What happens in a run, in order, and how it ends.
pub data Run {ℓ} (Event Fault : Type 0) (A : Type ℓ) : Type ℓ where
  returns : List Event → A → Run Event Fault A
  raises : List Event → Fault → Run Event Fault A

module _ {Event Fault : Type 0} where
  abbrev pub after {ℓ} : {A : Type ℓ} → List Event → Run Event Fault A → Run Event Fault A
  after out (returns rest a) = returns (out ++ rest) a
  after out (raises rest e) = raises (out ++ rest) e

  infixl 5 ◌>>=◌
  abbrev pub ◌>>=◌ {ℓ κ} :
      {A : Type ℓ} {B : Type κ} → Run Event Fault A → (A → Run Event Fault B) → Run Event Fault B
  returns out a >>= f = after out (f a)
  raises out e >>= f = raises out e

  abbrev pub emit : Event → Run Event Fault (Unit {0})
  emit e = returns (e ∷ []) tt

  abbrev pub pure {ℓ} : {A : Type ℓ} → A → Run Event Fault A
  pure a = returns [] a

  abbrev pub or_raise {ℓ} : {A : Type ℓ} → Fault → Option A → Run Event Fault A
  or_raise e none = raises [] e
  or_raise e (some a) = returns [] a
