-- ===== src/Functions/Props/Proper.antt =====
-- The results of the functions on properties (scripts/kconfig/kconfigfunctions.py).
use ve_root.Base.{Option, none, some, Text, pos}
use ve_root.Functions.{Result}
use ve_root.Functions.Numbers.{str, hex}
use ve_root.Functions.Devicetree.{Prop, Edt, Answer}
use ve_root.Functions.Props
use ve_root.Functions.Proper.{IsProper, a_text, IsProper-print}
use ve_root.Functions.Props.Values.{
  bool_value, is_there, int_or_zero, Sane-int_prop, Sane-array_prop, Sane-ph_array_prop,
  phandle_path, str_equals, array_has,
}

module _ {Node : Type 0} where
  node_bool_prop :
      (edt : Edt Node) (o : Option Node) (prop : Text) → IsProper (Props.node_bool_prop edt o prop)
  unfolding Props.node_bool_prop
  node_bool_prop edt none prop = a_text
  node_bool_prop edt (some node) prop = bool_value (edt.props node prop)

  node_has_prop :
      (edt : Edt Node) (o : Option Node) (prop : Text) → IsProper (Props.node_has_prop edt o prop)
  unfolding Props.node_has_prop
  node_has_prop edt none prop = a_text
  node_has_prop edt (some node) prop = is_there (edt.props node prop)

  labelled_int :
      (edt : Edt Node) (o : Option Node) (prop : Text) → IsProper (Props.labelled_int edt o prop)
  unfolding Props.labelled_int
  labelled_int edt none prop = a_text
  labelled_int edt (some node) prop = int_or_zero (edt.props node prop)

  labelled_array :
      (edt : Edt Node) (o : Option Node) (prop val : Text)
      → IsProper (Props.labelled_array edt o prop val)
  unfolding Props.labelled_array
  labelled_array edt none prop val = a_text
  labelled_array edt (some node) prop val = array_has val (edt.props node prop)

  pub dt_node_bool_prop-IsProper :
      (edt : Option (Edt Node)) (a : Text) (b : Text) → IsProper (Props.dt_node_bool_prop edt a b)
  unfolding Props.dt_node_bool_prop
  dt_node_bool_prop-IsProper none a b = a_text
  dt_node_bool_prop-IsProper (some edt) a b = node_bool_prop edt (edt.get_node a) b

  pub dt_nodelabel_bool_prop-IsProper :
      (edt : Option (Edt Node)) (a : Text) (b : Text)
      → IsProper (Props.dt_nodelabel_bool_prop edt a b)
  unfolding Props.dt_nodelabel_bool_prop
  dt_nodelabel_bool_prop-IsProper none a b = a_text
  dt_nodelabel_bool_prop-IsProper (some edt) a b = node_bool_prop edt (edt.label2node a) b

  pub dt_chosen_bool_prop-IsProper :
      (edt : Option (Edt Node)) (a : Text) (b : Text) → IsProper (Props.dt_chosen_bool_prop edt a b)
  unfolding Props.dt_chosen_bool_prop
  dt_chosen_bool_prop-IsProper none a b = a_text
  dt_chosen_bool_prop-IsProper (some edt) a b = node_bool_prop edt (edt.chosen_node a) b

  pub dt_node_has_prop-IsProper :
      (edt : Option (Edt Node)) (a : Text) (b : Text) → IsProper (Props.dt_node_has_prop edt a b)
  unfolding Props.dt_node_has_prop
  dt_node_has_prop-IsProper none a b = a_text
  dt_node_has_prop-IsProper (some edt) a b = node_has_prop edt (edt.get_node a) b

  pub dt_nodelabel_has_prop-IsProper :
      (edt : Option (Edt Node)) (a : Text) (b : Text)
      → IsProper (Props.dt_nodelabel_has_prop edt a b)
  unfolding Props.dt_nodelabel_has_prop
  dt_nodelabel_has_prop-IsProper none a b = a_text
  dt_nodelabel_has_prop-IsProper (some edt) a b = node_has_prop edt (edt.label2node a) b

  pub dt_nodelabel_int_prop-IsProper :
      (edt : Option (Edt Node)) (a : Text) (b : Text)
      → IsProper (Props.dt_nodelabel_int_prop edt a b)
  unfolding Props.dt_nodelabel_int_prop
  dt_nodelabel_int_prop-IsProper none a b = a_text
  dt_nodelabel_int_prop-IsProper (some edt) a b = labelled_int edt (edt.label2node a) b

  pub dt_nodelabel_array_prop_has_val-IsProper :
      (edt : Option (Edt Node)) (a : Text) (b : Text) (c : Text)
      → IsProper (Props.dt_nodelabel_array_prop_has_val edt a b c)
  unfolding Props.dt_nodelabel_array_prop_has_val
  dt_nodelabel_array_prop_has_val-IsProper none a b c = a_text
  dt_nodelabel_array_prop_has_val-IsProper (some edt) a b c =
      labelled_array edt (edt.label2node a) b c

  phandle_at :
      (edt : Edt Node) (o : Option Node) (prop : Text) → IsProper (Props.phandle_at edt o prop)
  unfolding Props.phandle_at
  phandle_at edt none prop = a_text
  phandle_at edt (some node) prop = phandle_path edt (edt.props node prop)

  equals_at :
      (edt : Edt Node) (o : Option Node) (prop val : Text)
      → IsProper (Props.equals_at edt o prop val)
  unfolding Props.equals_at
  equals_at edt none prop val = a_text
  equals_at edt (some node) prop val = str_equals val (edt.props node prop)

  at_node :
      (edt : Edt Node) (o : Option Node) (prop : Text)
      {f : Option (Prop Node) → Result (Answer Node)}
      → ((p : Option (Prop Node)) → IsProper (f p))
      → IsProper (Props.at_node edt o prop f)
  unfolding Props.at_node
  at_node edt none prop h = a_text
  at_node edt (some node) prop h = h (edt.props node prop)

  at_path :
      (edt : Option (Edt Node)) (path prop : Text) {f : Option (Prop Node) → Result (Answer Node)}
      → ((p : Option (Prop Node)) → IsProper (f p))
      → IsProper (Props.at_path edt path prop f)
  unfolding Props.at_path
  at_path none path prop h = a_text
  at_path (some edt) path prop h = at_node edt (edt.get_node path) prop h

  pub dt_node_ph_prop_path-IsProper :
      (edt : Option (Edt Node)) (a : Text) (b : Text)
      → IsProper (Props.dt_node_ph_prop_path edt a b)
  unfolding Props.dt_node_ph_prop_path
  dt_node_ph_prop_path-IsProper none a b = a_text
  dt_node_ph_prop_path-IsProper (some edt) a b = phandle_at edt (edt.get_node a) b

  pub dt_node_str_prop_equals-IsProper :
      (edt : Option (Edt Node)) (a : Text) (b : Text) (c : Text)
      → IsProper (Props.dt_node_str_prop_equals edt a b c)
  unfolding Props.dt_node_str_prop_equals
  dt_node_str_prop_equals-IsProper none a b c = a_text
  dt_node_str_prop_equals-IsProper (some edt) a b c = equals_at edt (edt.get_node a) b c

  pub dt_node_int_prop_int-IsProper :
      (edt : Option (Edt Node)) (a b : Text) (unit : Option Text)
      → IsProper (Props.dt_node_int_prop edt "dt_node_int_prop_int" a b unit)
  unfolding Props.dt_node_int_prop
  dt_node_int_prop_int-IsProper edt a b unit =
      at_path edt a b (λ p. IsProper-print (λ n. str (pos n)) (Sane-int_prop unit p))

  pub dt_node_int_prop_hex-IsProper :
      (edt : Option (Edt Node)) (a b : Text) (unit : Option Text)
      → IsProper (Props.dt_node_int_prop edt "dt_node_int_prop_hex" a b unit)
  unfolding Props.dt_node_int_prop
  dt_node_int_prop_hex-IsProper edt a b unit =
      at_path edt a b (λ p. IsProper-print (λ n. hex (pos n)) (Sane-int_prop unit p))

  pub dt_node_array_prop_int-IsProper :
      (edt : Option (Edt Node)) (a b index : Text) (unit : Option Text)
      → IsProper (Props.dt_node_array_prop edt "dt_node_array_prop_int" a b index unit)
  unfolding Props.dt_node_array_prop
  dt_node_array_prop_int-IsProper edt a b index unit =
      at_path edt a b (λ p. IsProper-print (λ n. str (pos n)) (Sane-array_prop index unit p))

  pub dt_node_array_prop_hex-IsProper :
      (edt : Option (Edt Node)) (a b index : Text) (unit : Option Text)
      → IsProper (Props.dt_node_array_prop edt "dt_node_array_prop_hex" a b index unit)
  unfolding Props.dt_node_array_prop
  dt_node_array_prop_hex-IsProper edt a b index unit =
      at_path edt a b (λ p. IsProper-print (λ n. hex (pos n)) (Sane-array_prop index unit p))

  pub dt_node_ph_array_prop_int-IsProper :
      (edt : Option (Edt Node)) (a b index cell : Text) (unit : Option Text)
      → IsProper (Props.dt_node_ph_array_prop edt "dt_node_ph_array_prop_int" a b index cell unit)
  unfolding Props.dt_node_ph_array_prop
  dt_node_ph_array_prop_int-IsProper edt a b index cell unit =
      at_path edt a b
        (λ p. IsProper-print (λ n. str (pos n)) (Sane-ph_array_prop index cell unit p))

  pub dt_node_ph_array_prop_hex-IsProper :
      (edt : Option (Edt Node)) (a b index cell : Text) (unit : Option Text)
      → IsProper (Props.dt_node_ph_array_prop edt "dt_node_ph_array_prop_hex" a b index cell unit)
  unfolding Props.dt_node_ph_array_prop
  dt_node_ph_array_prop_hex-IsProper edt a b index cell unit =
      at_path edt a b
        (λ p. IsProper-print (λ n. hex (pos n)) (Sane-ph_array_prop index cell unit p))
