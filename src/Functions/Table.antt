-- ===== src/Functions/Table.antt =====
-- The table `functions` of scripts/kconfig/kconfigfunctions.py, by which Kconfig files call its
-- functions.
pub mod Calls
use ve_root.Base.{Option, String, List, [], ◌∷◌, ◌++◌, Text}
use ve_root.Functions.Devicetree.{Edt, answer}
use ve_root.Functions.Entry.{
  Entry, entry, no_args, one, two, three, one_to_three, two_or_three, three_or_four, four_or_five,
  many, to_answer,
}
use ve_root.Functions.Nodes.{
  dt_chosen_label, dt_chosen_enabled, dt_chosen_path, dt_chosen_has_compat, dt_node_enabled,
  dt_nodelabel_exists, dt_nodelabel_enabled, dt_nodelabel_has_compat, dt_node_has_compat,
  dt_nodelabel_path, dt_node_parent,
}
use ve_root.Functions.Regs.{dt_chosen_reg, dt_node_reg, dt_nodelabel_reg, dt_chosen_partition_addr}
use ve_root.Functions.Props.{
  dt_node_bool_prop, dt_nodelabel_bool_prop, dt_nodelabel_int_prop, dt_chosen_bool_prop,
  dt_node_has_prop, dt_nodelabel_has_prop, dt_node_int_prop, dt_node_array_prop,
  dt_node_ph_array_prop, dt_node_ph_prop_path, dt_node_str_prop_equals,
  dt_nodelabel_array_prop_has_val,
}
use ve_root.Functions.Compats.{
  dt_has_compat, dt_compat_enabled, dt_compat_enabled_num, dt_compat_on_bus, dt_compat_any_has_prop,
  dt_compat_any_not_has_prop, dt_nodelabel_enabled_with_compat, dt_gpio_hogs_enabled,
}
use ve_root.Functions.Strings.{normalize_upper, shields_list_contains, substring}
use ve_root.Functions.Arith.{Floats, arith, inc_dec}

module _ {Node : Type 0} (edt : Option (Edt Node)) where
  -- Nodes, labels and compatibles.
  node_entries : List (Entry Node)
  node_entries =
      (entry "dt_has_compat" 1 1 (one (dt_has_compat edt)))
      ∷ (entry "dt_compat_enabled" 1 1 (one (dt_compat_enabled edt)))
      ∷ (entry "dt_compat_enabled_num" 1 1 (one (dt_compat_enabled_num edt)))
      ∷ (entry "dt_compat_on_bus" 2 2 (two (dt_compat_on_bus edt)))
      ∷ (entry "dt_chosen_label" 1 1 (one (dt_chosen_label edt)))
      ∷ (entry "dt_chosen_enabled" 1 1 (one (dt_chosen_enabled edt)))
      ∷ (entry "dt_chosen_path" 1 1 (one (dt_chosen_path edt)))
      ∷ (entry "dt_chosen_has_compat" 2 2 (two (dt_chosen_has_compat edt)))
      ∷ (entry "dt_path_enabled" 1 1 (one (dt_node_enabled edt "dt_path_enabled")))
      ∷ (entry "dt_alias_enabled" 1 1 (one (dt_node_enabled edt "dt_alias_enabled")))
      ∷ (entry "dt_nodelabel_exists" 1 1 (one (dt_nodelabel_exists edt)))
      ∷ (entry "dt_nodelabel_enabled" 1 1 (one (dt_nodelabel_enabled edt)))
      ∷ (entry "dt_nodelabel_enabled_with_compat" 2 2 (two (dt_nodelabel_enabled_with_compat edt)))
      ∷ (entry "dt_nodelabel_has_compat" 2 2 (two (dt_nodelabel_has_compat edt)))
      ∷ (entry "dt_node_has_compat" 2 2 (two (dt_node_has_compat edt)))
      ∷ (entry "dt_nodelabel_path" 1 1 (one (dt_nodelabel_path edt)))
      ∷ (entry "dt_node_parent" 1 1 (one (dt_node_parent edt)))
      ∷ (entry "dt_gpio_hogs_enabled" 0 0 (no_args (dt_gpio_hogs_enabled edt)))
      ∷ []

  -- Registers and partitions.
  reg_entries : List (Entry Node)
  reg_entries =
      (entry "dt_chosen_reg_addr_int" 1 3
        (one_to_three (dt_chosen_reg edt "dt_chosen_reg_addr_int")))
      ∷ (entry "dt_chosen_reg_addr_hex" 1 3
          (one_to_three (dt_chosen_reg edt "dt_chosen_reg_addr_hex")))
      ∷ (entry "dt_chosen_reg_size_int" 1 3
          (one_to_three (dt_chosen_reg edt "dt_chosen_reg_size_int")))
      ∷ (entry "dt_chosen_reg_size_hex" 1 3
          (one_to_three (dt_chosen_reg edt "dt_chosen_reg_size_hex")))
      ∷ (entry "dt_node_reg_addr_int" 1 3 (one_to_three (dt_node_reg edt "dt_node_reg_addr_int")))
      ∷ (entry "dt_node_reg_addr_hex" 1 3 (one_to_three (dt_node_reg edt "dt_node_reg_addr_hex")))
      ∷ (entry "dt_node_reg_size_int" 1 3 (one_to_three (dt_node_reg edt "dt_node_reg_size_int")))
      ∷ (entry "dt_node_reg_size_hex" 1 3 (one_to_three (dt_node_reg edt "dt_node_reg_size_hex")))
      ∷ (entry "dt_nodelabel_reg_addr_int" 1 3
          (one_to_three (dt_nodelabel_reg edt "dt_nodelabel_reg_addr_int")))
      ∷ (entry "dt_nodelabel_reg_addr_hex" 1 3
          (one_to_three (dt_nodelabel_reg edt "dt_nodelabel_reg_addr_hex")))
      ∷ (entry "dt_nodelabel_reg_size_int" 1 3
          (one_to_three (dt_nodelabel_reg edt "dt_nodelabel_reg_size_int")))
      ∷ (entry "dt_nodelabel_reg_size_hex" 1 3
          (one_to_three (dt_nodelabel_reg edt "dt_nodelabel_reg_size_hex")))
      ∷ (entry "dt_chosen_partition_addr_int" 1 3
          (one_to_three (dt_chosen_partition_addr edt "dt_chosen_partition_addr_int")))
      ∷ (entry "dt_chosen_partition_addr_hex" 1 3
          (one_to_three (dt_chosen_partition_addr edt "dt_chosen_partition_addr_hex")))
      ∷ []

  -- Properties.
  prop_entries : List (Entry Node)
  prop_entries =
      (entry "dt_compat_any_has_prop" 2 3 (two_or_three (dt_compat_any_has_prop edt)))
      ∷ (entry "dt_compat_any_not_has_prop" 2 2 (two (dt_compat_any_not_has_prop edt)))
      ∷ (entry "dt_node_bool_prop" 2 2 (two (dt_node_bool_prop edt)))
      ∷ (entry "dt_nodelabel_bool_prop" 2 2 (two (dt_nodelabel_bool_prop edt)))
      ∷ (entry "dt_nodelabel_int_prop" 2 2 (two (dt_nodelabel_int_prop edt)))
      ∷ (entry "dt_chosen_bool_prop" 2 2 (two (dt_chosen_bool_prop edt)))
      ∷ (entry "dt_node_has_prop" 2 2 (two (dt_node_has_prop edt)))
      ∷ (entry "dt_nodelabel_has_prop" 2 2 (two (dt_nodelabel_has_prop edt)))
      ∷ (entry "dt_node_int_prop_int" 2 3
          (two_or_three (dt_node_int_prop edt "dt_node_int_prop_int")))
      ∷ (entry "dt_node_int_prop_hex" 2 3
          (two_or_three (dt_node_int_prop edt "dt_node_int_prop_hex")))
      ∷ (entry "dt_node_array_prop_int" 3 4
          (three_or_four (dt_node_array_prop edt "dt_node_array_prop_int")))
      ∷ (entry "dt_node_array_prop_hex" 3 4
          (three_or_four (dt_node_array_prop edt "dt_node_array_prop_hex")))
      ∷ (entry "dt_node_ph_array_prop_int" 4 5
          (four_or_five (dt_node_ph_array_prop edt "dt_node_ph_array_prop_int")))
      ∷ (entry "dt_node_ph_array_prop_hex" 4 5
          (four_or_five (dt_node_ph_array_prop edt "dt_node_ph_array_prop_hex")))
      ∷ (entry "dt_node_ph_prop_path" 2 2 (two (dt_node_ph_prop_path edt)))
      ∷ (entry "dt_node_str_prop_equals" 3 3 (three (dt_node_str_prop_equals edt)))
      ∷ (entry "dt_nodelabel_array_prop_has_val" 3 3 (three (dt_nodelabel_array_prop_has_val edt)))
      ∷ []

module _ {Node Float : Type 0} (floats : Floats Float) (shields : Option Text) where
  -- Texts and numbers. `shields` is the environment variable `SHIELD_AS_LIST`.
  text_entries : List (Entry Node)
  text_entries =
      (entry "normalize_upper" 1 1 (one (λ a. answer (normalize_upper a))))
      ∷ (entry "shields_list_contains" 1 1 (one (λ a. answer (shields_list_contains shields a))))
      ∷ (entry "substring" 2 3 (two_or_three (λ a b c. to_answer (substring a b c))))
      ∷ (entry "add" 1 255 (many (arith floats "add")))
      ∷ (entry "add_hex" 1 255 (many (arith floats "add_hex")))
      ∷ (entry "sub" 1 255 (many (arith floats "sub")))
      ∷ (entry "sub_hex" 1 255 (many (arith floats "sub_hex")))
      ∷ (entry "mul" 1 255 (many (arith floats "mul")))
      ∷ (entry "mul_hex" 1 255 (many (arith floats "mul_hex")))
      ∷ (entry "div" 1 255 (many (arith floats "div")))
      ∷ (entry "div_hex" 1 255 (many (arith floats "div_hex")))
      ∷ (entry "mod" 1 255 (many (arith floats "mod")))
      ∷ (entry "mod_hex" 1 255 (many (arith floats "mod_hex")))
      ∷ (entry "max" 1 255 (many (arith floats "max")))
      ∷ (entry "max_hex" 1 255 (many (arith floats "max_hex")))
      ∷ (entry "min" 1 255 (many (arith floats "min")))
      ∷ (entry "min_hex" 1 255 (many (arith floats "min_hex")))
      ∷ (entry "inc" 1 255 (many (inc_dec "inc")))
      ∷ (entry "inc_hex" 1 255 (many (inc_dec "inc_hex")))
      ∷ (entry "dec" 1 255 (many (inc_dec "dec")))
      ∷ (entry "dec_hex" 1 255 (many (inc_dec "dec_hex")))
      ∷ []

  unfoldable pub functions : Option (Edt Node) → List (Entry Node)
  unfolding node_entries reg_entries prop_entries text_entries
  functions edt = node_entries edt ++ (reg_entries edt ++ (prop_entries edt ++ text_entries))
