-- ===== src/Functions/Proper.antt =====
-- How the functions of scripts/kconfig/kconfigfunctions.py may end.
use ve_root.Base.{ℕ, Bool, true, false, Option, none, some, List, Text, if◌then◌else◌}
use ve_root.Functions.{
  Error, value_error, type_error, index_error, assertion_error, arity_error, Result, ok, raises,
  ◌>>=◌, or_raise,
}
use ve_root.Functions.Devicetree.{
  Prop, Answer, says, value, answer, yes_no, shifted, dt_units_to_scale, at_index, ge_length,
  element,
}
use ve_root.Functions.Numbers.{int_decimal}

-- An exception that is no failed assertion, and no wrong number of arguments.
abbrev pub IsPlain : Error → Type 0
IsPlain assertion_error = ⊥
IsPlain arity_error = ⊥
IsPlain _ = Unit {0}

pub data Sane {A : Type 0} : Result A → Type 0 where
  returned : {a : A} → Sane (ok a)
  plain : {e : Error} → IsPlain e → Sane (raises e)

-- A text or a value of a property, or such an exception; never Python's `None`.
pub data IsProper {Node : Type 0} : Result (Answer Node) → Type 0 where
  a_text : {t : Text} → IsProper (ok (says t))
  a_value : {p : Prop Node} → IsProper (ok (value p))
  fails : {e : Error} → IsPlain e → IsProper (raises e)

pub Sane-bind :
    {A B : Type 0} {m : Result A} {f : A → Result B}
    → Sane m
    → ((a : A) → Sane (f a))
    → Sane (m >>= f)
Sane-bind (returned {a}) k = k a
Sane-bind (plain h) k = plain h

pub Sane-or_raise : {A : Type 0} (e : Error) (o : Option A) → IsPlain e → Sane (or_raise e o)
Sane-or_raise e none h = plain h
Sane-or_raise e (some a) h = returned

pub Sane-if : {A : Type 0} (b : Bool) {m n : Result A} → Sane m → Sane n → Sane (if b then m else n)
Sane-if true h k = h
Sane-if false h k = k

pub Sane-shifted : (n : ℕ) (unit : Option Text) → Sane (shifted n unit)
unfolding shifted
Sane-shifted n unit =
    Sane-bind (Sane-or_raise type_error (dt_units_to_scale unit) tt) (λ k. returned)

pub Sane-at_index :
    {A : Type 0} (xs : List A) (index : Text) (f : A → Result ℕ)
    → ((a : A) → Sane (f a))
    → Sane (at_index xs index f)
unfolding at_index
Sane-at_index xs index f h = Sane-bind (Sane-or_raise value_error (int_decimal index) tt) λ i.
    Sane-if (ge_length i xs) returned (Sane-bind (Sane-or_raise index_error (element xs i) tt) h)

pub IsProper-if :
    {Node : Type 0} (b : Bool) {m n : Result (Answer Node)}
    → IsProper m
    → IsProper n
    → IsProper (if b then m else n)
IsProper-if true h k = h
IsProper-if false h k = k

pub IsProper-yes_no : {Node : Type 0} (b : Bool) → IsProper {Node = Node} (yes_no b)
IsProper-yes_no true = a_text
IsProper-yes_no false = a_text

-- A result that is printed.
pub IsProper-print :
    {Node A : Type 0} {r : Result A} (f : A → Text)
    → Sane r
    → IsProper {Node = Node} (r >>= λ n. answer (f n))
IsProper-print f returned = a_text
IsProper-print f (plain h) = fails h
