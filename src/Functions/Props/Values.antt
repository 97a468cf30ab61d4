-- ===== src/Functions/Props/Values.antt =====
-- What the functions on properties make of a property (scripts/kconfig/kconfigfunctions.py).
use ve_root.Base.{ℕ, zero, suc, Option, none, some, List, Text, text_eq, ℤ}
use ve_root.Functions.{Result, value_error, ◌>>=◌}
use ve_root.Functions.Numbers.{int_any}
use ve_root.Functions.Devicetree.{Prop, Edt, yes_no}
use ve_root.Functions.Props
use ve_root.Functions.Proper.{
  Sane, returned, plain, Sane-or_raise, Sane-shifted, Sane-at_index, IsProper, a_text, fails,
  IsProper-yes_no,
}

Sane-cell_value : (unit : Option Text) (o : Option ℕ) → Sane (Props.cell_value unit o)
unfolding Props.cell_value
Sane-cell_value unit none = returned
Sane-cell_value unit (some n) = Sane-shifted n unit

Sane-cell_of :
    (cell : Text) (unit : Option Text) (o : Option (Text → Option ℕ))
    → Sane (Props.cell_of cell unit o)
unfolding Props.cell_of
Sane-cell_of cell unit none = plain tt
Sane-cell_of cell unit (some cells) = Sane-cell_value unit (cells cell)

module _ {Node : Type 0} where
  pub bool_value : (o : Option (Prop Node)) → IsProper (Props.bool_value o)
  unfolding Props.bool_value
  bool_value none = a_text
  bool_value (some (Prop.int n)) = a_text
  bool_value (some (Prop.array ns)) = a_text
  bool_value (some (Prop.boolean b)) = IsProper-yes_no b
  bool_value (some (Prop.string t)) = a_text
  bool_value (some (Prop.phandle n)) = a_text
  bool_value (some (Prop.phandle_array es)) = a_text
  bool_value (some Prop.other) = a_text

  pub is_there : (o : Option (Prop Node)) → IsProper (Props.is_there o)
  unfolding Props.is_there
  is_there none = a_text
  is_there (some p) = a_text

  int_nonzero : (n : ℕ) → IsProper {Node = Node} (Props.int_or_zero (some (Prop.int n)))
  unfolding Props.int_or_zero
  int_nonzero zero = a_text
  int_nonzero (suc n) = a_text

  pub int_or_zero : (o : Option (Prop Node)) → IsProper (Props.int_or_zero o)
  unfolding Props.int_or_zero
  int_or_zero none = fails tt
  int_or_zero (some (Prop.int n)) = int_nonzero n
  int_or_zero (some (Prop.array ns)) = a_text
  int_or_zero (some (Prop.boolean b)) = a_text
  int_or_zero (some (Prop.string t)) = a_text
  int_or_zero (some (Prop.phandle n)) = a_text
  int_or_zero (some (Prop.phandle_array es)) = a_text
  int_or_zero (some Prop.other) = a_text

  pub Sane-int_prop : (unit : Option Text) (o : Option (Prop Node)) → Sane (Props.int_prop unit o)
  unfolding Props.int_prop
  Sane-int_prop unit none = returned
  Sane-int_prop unit (some (Prop.int n)) = Sane-shifted n unit
  Sane-int_prop unit (some (Prop.array ns)) = returned
  Sane-int_prop unit (some (Prop.boolean b)) = returned
  Sane-int_prop unit (some (Prop.string t)) = returned
  Sane-int_prop unit (some (Prop.phandle n)) = returned
  Sane-int_prop unit (some (Prop.phandle_array es)) = returned
  Sane-int_prop unit (some Prop.other) = returned

  pub Sane-array_prop :
      (index : Text) (unit : Option Text) (o : Option (Prop Node))
      → Sane (Props.array_prop index unit o)
  unfolding Props.array_prop
  Sane-array_prop index unit none = returned
  Sane-array_prop index unit (some (Prop.int n)) = returned
  Sane-array_prop index unit (some (Prop.array ns)) =
      Sane-at_index ns index _ (λ n. Sane-shifted n unit)
  Sane-array_prop index unit (some (Prop.boolean b)) = returned
  Sane-array_prop index unit (some (Prop.string t)) = returned
  Sane-array_prop index unit (some (Prop.phandle n)) = returned
  Sane-array_prop index unit (some (Prop.phandle_array es)) = returned
  Sane-array_prop index unit (some Prop.other) = returned

  pub Sane-ph_array_prop :
      (index cell : Text) (unit : Option Text) (o : Option (Prop Node))
      → Sane (Props.ph_array_prop index cell unit o)
  unfolding Props.ph_array_prop
  Sane-ph_array_prop index cell unit none = returned
  Sane-ph_array_prop index cell unit (some (Prop.int n)) = returned
  Sane-ph_array_prop index cell unit (some (Prop.array ns)) = returned
  Sane-ph_array_prop index cell unit (some (Prop.boolean b)) = returned
  Sane-ph_array_prop index cell unit (some (Prop.string t)) = returned
  Sane-ph_array_prop index cell unit (some (Prop.phandle n)) = returned
  Sane-ph_array_prop index cell unit (some (Prop.phandle_array es)) =
      Sane-at_index es index (Props.cell_of cell unit) (Sane-cell_of cell unit)
  Sane-ph_array_prop index cell unit (some Prop.other) = returned

  phandle_node :
      (edt : Edt Node) (o : Option Node) → IsProper (Props.phandle_path edt (some (Prop.phandle o)))
  unfolding Props.phandle_path
  phandle_node edt none = a_text
  phandle_node edt (some node) = a_text

  pub phandle_path : (edt : Edt Node) (o : Option (Prop Node)) → IsProper (Props.phandle_path edt o)
  unfolding Props.phandle_path
  phandle_path edt none = a_text
  phandle_path edt (some (Prop.int n)) = a_text
  phandle_path edt (some (Prop.array ns)) = a_text
  phandle_path edt (some (Prop.boolean b)) = a_text
  phandle_path edt (some (Prop.string t)) = a_text
  phandle_path edt (some (Prop.phandle n)) = phandle_node edt n
  phandle_path edt (some (Prop.phandle_array es)) = a_text
  phandle_path edt (some Prop.other) = a_text

  pub str_equals : (val : Text) (o : Option (Prop Node)) → IsProper (Props.str_equals val o)
  unfolding Props.str_equals
  str_equals val none = a_text
  str_equals val (some (Prop.int n)) = a_text
  str_equals val (some (Prop.array ns)) = a_text
  str_equals val (some (Prop.boolean b)) = a_text
  str_equals val (some (Prop.string t)) = IsProper-yes_no (text_eq t val)
  str_equals val (some (Prop.phandle n)) = a_text
  str_equals val (some (Prop.phandle_array es)) = a_text
  str_equals val (some Prop.other) = a_text

  among :
      {r : Result ℤ} (ns : List ℕ)
      → Sane r
      → IsProper {Node = Node} (r >>= λ z. yes_no (Props.is_among z ns))
  among ns (returned {a}) = IsProper-yes_no (Props.is_among a ns)
  among ns (plain h) = fails h

  pub array_has : (val : Text) (o : Option (Prop Node)) → IsProper (Props.array_has val o)
  unfolding Props.array_has
  array_has val none = a_text
  array_has val (some (Prop.int n)) = a_text
  array_has val (some (Prop.array ns)) = among ns (Sane-or_raise value_error (int_any val) tt)
  array_has val (some (Prop.boolean b)) = a_text
  array_has val (some (Prop.string t)) = a_text
  array_has val (some (Prop.phandle n)) = a_text
  array_has val (some (Prop.phandle_array es)) = a_text
  array_has val (some Prop.other) = a_text
