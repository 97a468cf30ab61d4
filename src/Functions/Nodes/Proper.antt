-- ===== src/Functions/Nodes/Proper.antt =====
-- The results of the functions on nodes (scripts/kconfig/kconfigfunctions.py).
use ve_root.Base.{Option, none, some, Text, codes, text_eq}
use ve_root.Functions.Devicetree.{Prop, Edt, is_member}
use ve_root.Functions.Nodes
use ve_root.Functions.Proper.{IsProper, a_text, a_value, IsProper-yes_no, IsProper-if}

module _ {Node : Type 0} (edt : Edt Node) where
  enabled : (o : Option Node) → IsProper (Nodes.enabled edt o)
  unfolding Nodes.enabled
  enabled none = a_text
  enabled (some node) = IsProper-yes_no (text_eq (edt.status node) (codes "okay"))

  path_of : (o : Option Node) → IsProper (Nodes.path_of edt o)
  unfolding Nodes.path_of
  path_of none = a_text
  path_of (some node) = a_text

  has_compat : (c : Text) (o : Option Node) → IsProper (Nodes.has_compat edt c o)
  unfolding Nodes.has_compat
  has_compat c none = a_text
  has_compat c (some node) = IsProper-yes_no (is_member c (edt.compats node))

  exists_node : (o : Option Node) → IsProper (Nodes.exists_node {Node = Node} o)
  unfolding Nodes.exists_node
  exists_node none = a_text
  exists_node (some node) = a_text

  parent_path : (o : Option Node) → IsProper (Nodes.parent_path edt o)
  unfolding Nodes.parent_path
  parent_path none = a_text
  parent_path (some node) = path_of (edt.parent node)

  label_value : (node : Node) (o : Option (Prop Node)) → IsProper (Nodes.label_value edt node o)
  unfolding Nodes.label_value
  label_value node none = a_text
  label_value node (some (Prop.string t)) = a_text
  label_value node (some (Prop.int n)) = a_value
  label_value node (some (Prop.array ns)) = a_value
  label_value node (some (Prop.boolean b)) = a_value
  label_value node (some (Prop.phandle n)) = a_value
  label_value node (some (Prop.phandle_array es)) = a_value
  label_value node (some Prop.other) = a_value

  label_of : (o : Option Node) → IsProper (Nodes.label_of edt o)
  unfolding Nodes.label_of
  label_of none = a_text
  label_of (some node) = label_value node (edt.props node (codes "label"))

module _ {Node : Type 0} where
  pub dt_chosen_label-IsProper :
      (edt : Option (Edt Node)) (a : Text) → IsProper (Nodes.dt_chosen_label edt a)
  unfolding Nodes.dt_chosen_label
  dt_chosen_label-IsProper none a = a_text
  dt_chosen_label-IsProper (some edt) a = label_of edt (edt.chosen_node a)

  pub dt_chosen_enabled-IsProper :
      (edt : Option (Edt Node)) (a : Text) → IsProper (Nodes.dt_chosen_enabled edt a)
  unfolding Nodes.dt_chosen_enabled
  dt_chosen_enabled-IsProper none a = a_text
  dt_chosen_enabled-IsProper (some edt) a = enabled edt (edt.chosen_node a)

  pub dt_chosen_path-IsProper :
      (edt : Option (Edt Node)) (a : Text) → IsProper (Nodes.dt_chosen_path edt a)
  unfolding Nodes.dt_chosen_path
  dt_chosen_path-IsProper none a = a_text
  dt_chosen_path-IsProper (some edt) a = path_of edt (edt.chosen_node a)

  pub dt_chosen_has_compat-IsProper :
      (edt : Option (Edt Node)) (a : Text) (b : Text)
      → IsProper (Nodes.dt_chosen_has_compat edt a b)
  unfolding Nodes.dt_chosen_has_compat
  dt_chosen_has_compat-IsProper none a b = a_text
  dt_chosen_has_compat-IsProper (some edt) a b = has_compat edt b (edt.chosen_node a)

  pub dt_nodelabel_exists-IsProper :
      (edt : Option (Edt Node)) (a : Text) → IsProper (Nodes.dt_nodelabel_exists edt a)
  unfolding Nodes.dt_nodelabel_exists
  dt_nodelabel_exists-IsProper none a = a_text
  dt_nodelabel_exists-IsProper (some edt) a = exists_node edt (edt.label2node a)

  pub dt_nodelabel_enabled-IsProper :
      (edt : Option (Edt Node)) (a : Text) → IsProper (Nodes.dt_nodelabel_enabled edt a)
  unfolding Nodes.dt_nodelabel_enabled
  dt_nodelabel_enabled-IsProper none a = a_text
  dt_nodelabel_enabled-IsProper (some edt) a = enabled edt (edt.label2node a)

  pub dt_nodelabel_has_compat-IsProper :
      (edt : Option (Edt Node)) (a : Text) (b : Text)
      → IsProper (Nodes.dt_nodelabel_has_compat edt a b)
  unfolding Nodes.dt_nodelabel_has_compat
  dt_nodelabel_has_compat-IsProper none a b = a_text
  dt_nodelabel_has_compat-IsProper (some edt) a b = has_compat edt b (edt.label2node a)

  pub dt_node_has_compat-IsProper :
      (edt : Option (Edt Node)) (a : Text) (b : Text) → IsProper (Nodes.dt_node_has_compat edt a b)
  unfolding Nodes.dt_node_has_compat
  dt_node_has_compat-IsProper none a b = a_text
  dt_node_has_compat-IsProper (some edt) a b = has_compat edt b (edt.get_node a)

  pub dt_nodelabel_path-IsProper :
      (edt : Option (Edt Node)) (a : Text) → IsProper (Nodes.dt_nodelabel_path edt a)
  unfolding Nodes.dt_nodelabel_path
  dt_nodelabel_path-IsProper none a = a_text
  dt_nodelabel_path-IsProper (some edt) a = path_of edt (edt.label2node a)

  pub dt_node_parent-IsProper :
      (edt : Option (Edt Node)) (a : Text) → IsProper (Nodes.dt_node_parent edt a)
  unfolding Nodes.dt_node_parent
  dt_node_parent-IsProper none a = a_text
  dt_node_parent-IsProper (some edt) a = parent_path edt (edt.get_node a)

  pub dt_path_enabled-IsProper :
      (edt : Option (Edt Node)) (a : Text)
      → IsProper (Nodes.dt_node_enabled edt "dt_path_enabled" a)
  unfolding Nodes.dt_node_enabled
  dt_path_enabled-IsProper none a = a_text
  dt_path_enabled-IsProper (some edt) a = enabled edt (edt.get_node a)

  pub dt_alias_enabled-IsProper :
      (edt : Option (Edt Node)) (a : Text)
      → IsProper (Nodes.dt_node_enabled edt "dt_alias_enabled" a)
  unfolding Nodes.dt_node_enabled
  dt_alias_enabled-IsProper none a = a_text
  dt_alias_enabled-IsProper (some edt) a =
      IsProper-if (Nodes.starts_with_slash a) a_text (enabled edt (edt.get_node a))
