-- ===== src/Functions/Nodes.antt =====
-- The functions of scripts/kconfig/kconfigfunctions.py on chosen nodes, paths, aliases and labels.
-- The devicetree is `none` in the documentation mode and where there is none.
pub mod Proper
use text.Mathlib.Text.{◌==◌ as str_eq}
use ve_root.Base.{
  ℕ, Bool, true, false, ◌&&◌, Option, none, some, String, List, [], ◌∷◌, ◌==◌, if◌then◌else◌, Text,
  text_eq, codes,
}
use ve_root.Functions.{Result, ok, raises, ◌>>=◌, assertion_error}
use ve_root.Functions.Devicetree.{
  Prop, Edt, Answer, says, nothing, value, answer, yes_no, is_member,
}

starts_with_slash : Text → Bool
starts_with_slash [] = false
starts_with_slash (c ∷ s) = c == b'/'

module _ {Node : Type 0} where
  -- `"y" if node and node.status == "okay" else "n"`
  enabled : Edt Node → Option Node → Result (Answer Node)
  enabled edt none = yes_no false
  enabled edt (some node) = yes_no (text_eq (edt.status node) (codes "okay"))

  -- `node.path if node else ""`
  path_of : Edt Node → Option Node → Result (Answer Node)
  path_of edt none = answer []
  path_of edt (some node) = answer (edt.path node)

  has_compat : Edt Node → Text → Option Node → Result (Answer Node)
  has_compat edt compat none = yes_no false
  has_compat edt compat (some node) = yes_no (is_member compat (edt.compats node))

  label_value : Edt Node → Node → Option (Prop Node) → Result (Answer Node)
  label_value edt node none = answer (edt.name node)
  label_value edt node (some (Prop.string t)) = answer t
  label_value edt node (some p) = ok (value p)

  label_of : Edt Node → Option Node → Result (Answer Node)
  unfolding label_value
  label_of edt none = answer []
  label_of edt (some node) = label_value edt node (edt.props node (codes "label"))

  unfoldable pub dt_chosen_label : Option (Edt Node) → Text → Result (Answer Node)
  unfolding label_of
  dt_chosen_label none chosen = answer []
  dt_chosen_label (some edt) chosen = label_of edt (edt.chosen_node chosen)

  unfoldable pub dt_chosen_enabled : Option (Edt Node) → Text → Result (Answer Node)
  unfolding enabled
  dt_chosen_enabled none chosen = answer (codes "n")
  dt_chosen_enabled (some edt) chosen = enabled edt (edt.chosen_node chosen)

  unfoldable pub dt_chosen_path : Option (Edt Node) → Text → Result (Answer Node)
  unfolding path_of
  dt_chosen_path none chosen = answer (codes "n")
  dt_chosen_path (some edt) chosen = path_of edt (edt.chosen_node chosen)

  unfoldable pub dt_chosen_has_compat : Option (Edt Node) → Text → Text → Result (Answer Node)
  unfolding has_compat
  dt_chosen_has_compat none chosen compat = answer (codes "n")
  dt_chosen_has_compat (some edt) chosen compat = has_compat edt compat (edt.chosen_node chosen)

  unfoldable pub dt_node_enabled : Option (Edt Node) → String → Text → Result (Answer Node)
  unfolding enabled starts_with_slash
  dt_node_enabled none name node = answer (codes "n")
  dt_node_enabled (some edt) name node =
      if str_eq name "dt_alias_enabled"
      then (if starts_with_slash node then answer (codes "n") else enabled edt (edt.get_node node))
      else if str_eq name "dt_path_enabled"
      then enabled edt (edt.get_node node)
      else raises assertion_error

  exists_node : Option Node → Result (Answer Node)
  exists_node none = yes_no false
  exists_node (some node) = yes_no true

  unfoldable pub dt_nodelabel_exists : Option (Edt Node) → Text → Result (Answer Node)
  unfolding exists_node
  dt_nodelabel_exists none label = answer (codes "n")
  dt_nodelabel_exists (some edt) label = exists_node (edt.label2node label)

  unfoldable pub dt_nodelabel_enabled : Option (Edt Node) → Text → Result (Answer Node)
  unfolding enabled
  dt_nodelabel_enabled none label = answer (codes "n")
  dt_nodelabel_enabled (some edt) label = enabled edt (edt.label2node label)

  unfoldable pub dt_nodelabel_has_compat : Option (Edt Node) → Text → Text → Result (Answer Node)
  unfolding has_compat
  dt_nodelabel_has_compat none label compat = answer (codes "n")
  dt_nodelabel_has_compat (some edt) label compat = has_compat edt compat (edt.label2node label)

  unfoldable pub dt_node_has_compat : Option (Edt Node) → Text → Text → Result (Answer Node)
  unfolding has_compat
  dt_node_has_compat none path compat = answer (codes "n")
  dt_node_has_compat (some edt) path compat = has_compat edt compat (edt.get_node path)

  unfoldable pub dt_nodelabel_path : Option (Edt Node) → Text → Result (Answer Node)
  unfolding path_of
  dt_nodelabel_path none label = answer []
  dt_nodelabel_path (some edt) label = path_of edt (edt.label2node label)

  parent_path : Edt Node → Option Node → Result (Answer Node)
  unfolding path_of
  parent_path edt none = answer []
  parent_path edt (some node) = path_of edt (edt.parent node)

  unfoldable pub dt_node_parent : Option (Edt Node) → Text → Result (Answer Node)
  unfolding parent_path
  dt_node_parent none path = answer []
  dt_node_parent (some edt) path = parent_path edt (edt.get_node path)
