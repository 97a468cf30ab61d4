-- ===== src/Functions.antt =====
-- scripts/kconfig/kconfigfunctions.py: the functions that Kconfig files call. Their arguments and
-- their results are texts.
pub mod Numbers
pub mod Lists
pub mod Arith
pub mod Strings
pub mod Devicetree
pub mod Nodes
pub mod Regs
pub mod Props
pub mod Compats
pub mod Proper
pub mod Entry
pub mod Table
pub mod Tests
use ve_root.Base.{ℕ, Option, none, some, List, Text}

-- The exceptions of the functions. `arity_error` is the `TypeError` of a call with a wrong number
-- of arguments, and `type_error` any other.
pub data Error : Type 0 where
  value_error : Error
  type_error : Error
  key_error : Error
  index_error : Error
  attribute_error : Error
  zero_division_error : Error
  overflow_error : Error
  assertion_error : Error
  arity_error : Error

pub data Result {ℓ} (A : Type ℓ) : Type ℓ where
  ok : A → Result A
  raises : Error → Result A

infixl 5 ◌>>=◌
abbrev pub ◌>>=◌ {ℓ κ} : {A : Type ℓ} {B : Type κ} → Result A → (A → Result B) → Result B
ok a >>= f = f a
raises e >>= f = raises e

-- The value of a partial operation, or the exception.
abbrev pub or_raise {ℓ} : {A : Type ℓ} → Error → Option A → Result A
or_raise e none = raises e
or_raise e (some a) = ok a
