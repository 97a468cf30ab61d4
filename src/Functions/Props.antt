-- ===== src/Functions/Props.antt =====
-- The functions of scripts/kconfig/kconfigfunctions.py on the properties of a node.
pub mod Proper
pub mod Values
pub mod Missing
use text.Mathlib.Text.{◌==◌ as str_eq}
use ve_root.Base.{
  ℕ, zero, suc, ◌+◌, Bool, true, false, ◌&&◌, ◌||◌, Option, none, some, String, List, [], ◌∷◌, ◌==◌,
  leb, if◌then◌else◌, ℤ, pos, negsuc, Text, text_eq, codes,
}
use ve_root.Functions.{Result, ok, raises, ◌>>=◌, or_raise, key_error, value_error, attribute_error}
use ve_root.Functions.Numbers.{str, int_any}
use ve_root.Functions.Devicetree.{
  Prop, Edt, Answer, says, nothing, value, answer, yes_no, print_int, print_hex, shifted, at_index,
}

-- An integer in a list of numbers.
is_among : ℤ → List ℕ → Bool
is_among z [] = false
is_among (pos n) (m ∷ ms) = n == m || is_among (pos n) ms
is_among (negsuc n) (m ∷ ms) = false

cell_value : Option Text → Option ℕ → Result ℕ
unfolding shifted
cell_value unit none = ok 0
cell_value unit (some n) = shifted n unit

-- An entry of a phandle array. An empty one is `None`, which has no attribute `data`.
cell_of : Text → Option Text → Option (Text → Option ℕ) → Result ℕ
unfolding cell_value
cell_of cell unit none = raises attribute_error
cell_of cell unit (some cells) = cell_value unit (cells cell)

module _ {Node : Type 0} where
  pub bool_value : Option (Prop Node) → Result (Answer Node)
  bool_value (some (Prop.boolean b)) = yes_no b
  bool_value _ = yes_no false

  -- `_dt_node_bool_prop_generic()`, on the node that was found.
  node_bool_prop : Edt Node → Option Node → Text → Result (Answer Node)
  unfolding bool_value
  node_bool_prop edt none prop = yes_no false
  node_bool_prop edt (some node) prop = bool_value (edt.props node prop)

  unfoldable pub dt_node_bool_prop : Option (Edt Node) → Text → Text → Result (Answer Node)
  unfolding node_bool_prop
  dt_node_bool_prop none path prop = answer (codes "n")
  dt_node_bool_prop (some edt) path prop = node_bool_prop edt (edt.get_node path) prop

  unfoldable pub dt_nodelabel_bool_prop : Option (Edt Node) → Text → Text → Result (Answer Node)
  unfolding node_bool_prop
  dt_nodelabel_bool_prop none label prop = answer (codes "n")
  dt_nodelabel_bool_prop (some edt) label prop = node_bool_prop edt (edt.label2node label) prop

  unfoldable pub dt_chosen_bool_prop : Option (Edt Node) → Text → Text → Result (Answer Node)
  unfolding node_bool_prop
  dt_chosen_bool_prop none chosen prop = answer (codes "n")
  dt_chosen_bool_prop (some edt) chosen prop = node_bool_prop edt (edt.chosen_node chosen) prop

  pub is_there : Option (Prop Node) → Result (Answer Node)
  is_there none = yes_no false
  is_there (some p) = yes_no true

  -- `_dt_node_has_prop_generic()`
  node_has_prop : Edt Node → Option Node → Text → Result (Answer Node)
  unfolding is_there
  node_has_prop edt none prop = yes_no false
  node_has_prop edt (some node) prop = is_there (edt.props node prop)

  unfoldable pub dt_node_has_prop : Option (Edt Node) → Text → Text → Result (Answer Node)
  unfolding node_has_prop
  dt_node_has_prop none path prop = answer (codes "n")
  dt_node_has_prop (some edt) path prop = node_has_prop edt (edt.get_node path) prop

  unfoldable pub dt_nodelabel_has_prop : Option (Edt Node) → Text → Text → Result (Answer Node)
  unfolding node_has_prop
  dt_nodelabel_has_prop none label prop = answer (codes "n")
  dt_nodelabel_has_prop (some edt) label prop = node_has_prop edt (edt.label2node label) prop

  -- The property is read without a test that it is there.
  pub int_or_zero : Option (Prop Node) → Result (Answer Node)
  int_or_zero none = raises key_error
  int_or_zero (some (Prop.int zero)) = answer (codes "0")
  int_or_zero (some (Prop.int (suc n))) = answer (str (pos (suc n)))
  int_or_zero (some p) = answer (codes "0")

  labelled_int : Edt Node → Option Node → Text → Result (Answer Node)
  unfolding int_or_zero
  labelled_int edt none prop = answer (codes "0")
  labelled_int edt (some node) prop = int_or_zero (edt.props node prop)

  unfoldable pub dt_nodelabel_int_prop : Option (Edt Node) → Text → Text → Result (Answer Node)
  unfolding labelled_int
  dt_nodelabel_int_prop none label prop = answer (codes "0")
  dt_nodelabel_int_prop (some edt) label prop = labelled_int edt (edt.label2node label) prop

  -- `_node_int_prop()`, on the property.
  pub int_prop : Option Text → Option (Prop Node) → Result ℕ
  unfolding shifted
  int_prop unit (some (Prop.int n)) = shifted n unit
  int_prop unit _ = ok 0

  -- `_node_array_prop()`
  pub array_prop : Text → Option Text → Option (Prop Node) → Result ℕ
  unfolding at_index shifted
  array_prop index unit (some (Prop.array ns)) = at_index ns index (λ n. shifted n unit)
  array_prop index unit _ = ok 0

  -- `_node_ph_array_prop()`
  pub ph_array_prop : Text → Text → Option Text → Option (Prop Node) → Result ℕ
  unfolding at_index cell_of
  ph_array_prop index cell unit (some (Prop.phandle_array es)) =
      at_index es index (cell_of cell unit)
  ph_array_prop index cell unit _ = ok 0

  -- The name of a function says how its number is printed.
  print_as : String → String → String → Result ℕ → Result (Answer Node)
  print_as name int_name hex_name r =
      if str_eq name int_name
      then print_int r
      else if str_eq name hex_name
      then print_hex r
      else ok nothing

  -- The number that is read from a property of the node at a path, or the text "0" with no node.
  at_node :
      Edt Node
      → Option Node
      → Text
      → (Option (Prop Node) → Result (Answer Node))
      → Result (Answer Node)
  at_node edt none prop f = answer (codes "0")
  at_node edt (some node) prop f = f (edt.props node prop)

  at_path :
      Option (Edt Node)
      → Text
      → Text
      → (Option (Prop Node) → Result (Answer Node))
      → Result (Answer Node)
  unfolding at_node
  at_path none path prop f = answer (codes "0")
  at_path (some edt) path prop f = at_node edt (edt.get_node path) prop f

  unfoldable pub dt_node_int_prop :
      Option (Edt Node) → String → Text → Text → Option Text → Result (Answer Node)
  unfolding int_prop print_as at_path
  dt_node_int_prop edt name path prop unit =
      at_path edt path prop
        λ p. print_as name "dt_node_int_prop_int" "dt_node_int_prop_hex" (int_prop unit p)

  unfoldable pub dt_node_array_prop :
      Option (Edt Node) → String → Text → Text → Text → Option Text → Result (Answer Node)
  unfolding array_prop print_as at_path
  dt_node_array_prop edt name path prop index unit =
      at_path edt path prop λ p.
        print_as name "dt_node_array_prop_int" "dt_node_array_prop_hex" (array_prop index unit p)

  unfoldable pub dt_node_ph_array_prop :
      Option (Edt Node) → String → Text → Text → Text → Text → Option Text → Result (Answer Node)
  unfolding ph_array_prop print_as at_path
  dt_node_ph_array_prop edt name path prop index cell unit = at_path edt path prop λ p.
      print_as name "dt_node_ph_array_prop_int" "dt_node_ph_array_prop_hex"
        (ph_array_prop index cell unit p)

  pub phandle_path : Edt Node → Option (Prop Node) → Result (Answer Node)
  phandle_path edt (some (Prop.phandle (some node))) = answer (edt.path node)
  phandle_path edt _ = answer []

  phandle_at : Edt Node → Option Node → Text → Result (Answer Node)
  unfolding phandle_path
  phandle_at edt none prop = answer []
  phandle_at edt (some node) prop = phandle_path edt (edt.props node prop)

  unfoldable pub dt_node_ph_prop_path : Option (Edt Node) → Text → Text → Result (Answer Node)
  unfolding phandle_at
  dt_node_ph_prop_path none path prop = answer []
  dt_node_ph_prop_path (some edt) path prop = phandle_at edt (edt.get_node path) prop

  pub str_equals : Text → Option (Prop Node) → Result (Answer Node)
  str_equals val (some (Prop.string t)) = yes_no (text_eq t val)
  str_equals val _ = yes_no false

  equals_at : Edt Node → Option Node → Text → Text → Result (Answer Node)
  unfolding str_equals
  equals_at edt none prop val = yes_no false
  equals_at edt (some node) prop val = str_equals val (edt.props node prop)

  unfoldable pub dt_node_str_prop_equals :
      Option (Edt Node) → Text → Text → Text → Result (Answer Node)
  unfolding equals_at
  dt_node_str_prop_equals none path prop val = answer (codes "n")
  dt_node_str_prop_equals (some edt) path prop val = equals_at edt (edt.get_node path) prop val

  -- The text is read as a number only if there is an array to look in.
  pub array_has : Text → Option (Prop Node) → Result (Answer Node)
  unfolding is_among
  array_has val (some (Prop.array ns)) =
      or_raise value_error (int_any val) >>= λ z. yes_no (is_among z ns)
  array_has val _ = yes_no false

  labelled_array : Edt Node → Option Node → Text → Text → Result (Answer Node)
  unfolding array_has
  labelled_array edt none prop val = yes_no false
  labelled_array edt (some node) prop val = array_has val (edt.props node prop)

  unfoldable pub dt_nodelabel_array_prop_has_val :
      Option (Edt Node) → Text → Text → Text → Result (Answer Node)
  unfolding labelled_array
  dt_nodelabel_array_prop_has_val none label prop val = answer (codes "n")
  dt_nodelabel_array_prop_has_val (some edt) label prop val =
      labelled_array edt (edt.label2node label) prop val
