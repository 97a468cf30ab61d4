-- ===== src/Functions/Table/Calls.antt =====
-- Calls of the functions of scripts/kconfig/kconfigfunctions.py through their table.
use ve_root.Base.{Option, Text, pos, ◌+ℤ◌, ◌-ℤ◌, ◌*ℤ◌}
use ve_root.Functions.Devicetree.{Edt}
use ve_root.Functions.Proper.{a_text, IsProper-print}
use ve_root.Functions.Numbers.{str, hex}
use ve_root.Functions.Lists.{join}
use ve_root.Functions.Strings.Sound.{Sane-substring}
use ve_root.Functions.Arith.{Floats, arith, inc_dec, max_ℤ, min_ℤ}
use ve_root.Functions.Arith.Sound.{IsFloats, Sane-fold, Sane-mod, Sane-div, Sane-step}
use ve_root.Functions.Entry.{AllCallable, all_done, ◌&◌, AllCallable-append}
use ve_root.Functions.Entry.Callable.{
  no_args-IsCallable, one-IsCallable, two-IsCallable, three-IsCallable, one_to_three-IsCallable,
  two_or_three-IsCallable, three_or_four-IsCallable, four_or_five-IsCallable, many-IsCallable,
}
use ve_root.Functions.Nodes.Proper.{
  dt_chosen_label-IsProper, dt_chosen_enabled-IsProper, dt_chosen_path-IsProper,
  dt_chosen_has_compat-IsProper, dt_nodelabel_exists-IsProper, dt_nodelabel_enabled-IsProper,
  dt_nodelabel_has_compat-IsProper, dt_node_has_compat-IsProper, dt_nodelabel_path-IsProper,
  dt_node_parent-IsProper, dt_path_enabled-IsProper, dt_alias_enabled-IsProper,
}
use ve_root.Functions.Regs.Proper.{
  dt_chosen_reg_addr_int-IsProper, dt_chosen_reg_addr_hex-IsProper, dt_chosen_reg_size_int-IsProper,
  dt_chosen_reg_size_hex-IsProper, dt_node_reg_addr_int-IsProper, dt_node_reg_addr_hex-IsProper,
  dt_node_reg_size_int-IsProper, dt_node_reg_size_hex-IsProper, dt_nodelabel_reg_addr_int-IsProper,
  dt_nodelabel_reg_addr_hex-IsProper, dt_nodelabel_reg_size_int-IsProper,
  dt_nodelabel_reg_size_hex-IsProper, dt_chosen_partition_addr_int-IsProper,
  dt_chosen_partition_addr_hex-IsProper,
}
use ve_root.Functions.Props.Proper.{
  dt_node_bool_prop-IsProper, dt_nodelabel_bool_prop-IsProper, dt_chosen_bool_prop-IsProper,
  dt_node_has_prop-IsProper, dt_nodelabel_has_prop-IsProper, dt_nodelabel_int_prop-IsProper,
  dt_nodelabel_array_prop_has_val-IsProper, dt_node_ph_prop_path-IsProper,
  dt_node_str_prop_equals-IsProper, dt_node_int_prop_int-IsProper, dt_node_int_prop_hex-IsProper,
  dt_node_array_prop_int-IsProper, dt_node_array_prop_hex-IsProper,
  dt_node_ph_array_prop_int-IsProper, dt_node_ph_array_prop_hex-IsProper,
}
use ve_root.Functions.Compats.Proper.{
  dt_has_compat-IsProper, dt_compat_enabled-IsProper, dt_compat_enabled_num-IsProper,
  dt_compat_on_bus-IsProper, dt_compat_any_has_prop-IsProper, dt_compat_any_not_has_prop-IsProper,
  dt_nodelabel_enabled_with_compat-IsProper, dt_gpio_hogs_enabled-IsProper,
}
use ve_root.Functions.Table.{node_entries, reg_entries, prop_entries, text_entries, functions}

module _ {Node : Type 0} (edt : Option (Edt Node)) where
  node_entries_callable : AllCallable (node_entries edt)
  unfolding node_entries
  node_entries_callable =
      one-IsCallable "dt_has_compat" (dt_has_compat-IsProper edt)
      & one-IsCallable "dt_compat_enabled" (dt_compat_enabled-IsProper edt)
      & one-IsCallable "dt_compat_enabled_num" (dt_compat_enabled_num-IsProper edt)
      & two-IsCallable "dt_compat_on_bus" (dt_compat_on_bus-IsProper edt)
      & one-IsCallable "dt_chosen_label" (dt_chosen_label-IsProper edt)
      & one-IsCallable "dt_chosen_enabled" (dt_chosen_enabled-IsProper edt)
      & one-IsCallable "dt_chosen_path" (dt_chosen_path-IsProper edt)
      & two-IsCallable "dt_chosen_has_compat" (dt_chosen_has_compat-IsProper edt)
      & one-IsCallable "dt_path_enabled" (dt_path_enabled-IsProper edt)
      & one-IsCallable "dt_alias_enabled" (dt_alias_enabled-IsProper edt)
      & one-IsCallable "dt_nodelabel_exists" (dt_nodelabel_exists-IsProper edt)
      & one-IsCallable "dt_nodelabel_enabled" (dt_nodelabel_enabled-IsProper edt)
      & two-IsCallable "dt_nodelabel_enabled_with_compat"
          (dt_nodelabel_enabled_with_compat-IsProper edt)
      & two-IsCallable "dt_nodelabel_has_compat" (dt_nodelabel_has_compat-IsProper edt)
      & two-IsCallable "dt_node_has_compat" (dt_node_has_compat-IsProper edt)
      & one-IsCallable "dt_nodelabel_path" (dt_nodelabel_path-IsProper edt)
      & one-IsCallable "dt_node_parent" (dt_node_parent-IsProper edt)
      & no_args-IsCallable "dt_gpio_hogs_enabled" (dt_gpio_hogs_enabled-IsProper edt)
      & all_done

  reg_entries_callable : AllCallable (reg_entries edt)
  unfolding reg_entries
  reg_entries_callable =
      one_to_three-IsCallable "dt_chosen_reg_addr_int" (dt_chosen_reg_addr_int-IsProper edt)
      & one_to_three-IsCallable "dt_chosen_reg_addr_hex" (dt_chosen_reg_addr_hex-IsProper edt)
      & one_to_three-IsCallable "dt_chosen_reg_size_int" (dt_chosen_reg_size_int-IsProper edt)
      & one_to_three-IsCallable "dt_chosen_reg_size_hex" (dt_chosen_reg_size_hex-IsProper edt)
      & one_to_three-IsCallable "dt_node_reg_addr_int" (dt_node_reg_addr_int-IsProper edt)
      & one_to_three-IsCallable "dt_node_reg_addr_hex" (dt_node_reg_addr_hex-IsProper edt)
      & one_to_three-IsCallable "dt_node_reg_size_int" (dt_node_reg_size_int-IsProper edt)
      & one_to_three-IsCallable "dt_node_reg_size_hex" (dt_node_reg_size_hex-IsProper edt)
      & one_to_three-IsCallable "dt_nodelabel_reg_addr_int" (dt_nodelabel_reg_addr_int-IsProper edt)
      & one_to_three-IsCallable "dt_nodelabel_reg_addr_hex" (dt_nodelabel_reg_addr_hex-IsProper edt)
      & one_to_three-IsCallable "dt_nodelabel_reg_size_int" (dt_nodelabel_reg_size_int-IsProper edt)
      & one_to_three-IsCallable "dt_nodelabel_reg_size_hex" (dt_nodelabel_reg_size_hex-IsProper edt)
      & one_to_three-IsCallable "dt_chosen_partition_addr_int"
          (dt_chosen_partition_addr_int-IsProper edt)
      & one_to_three-IsCallable "dt_chosen_partition_addr_hex"
          (dt_chosen_partition_addr_hex-IsProper edt)
      & all_done

  prop_entries_callable : AllCallable (prop_entries edt)
  unfolding prop_entries
  prop_entries_callable =
      two_or_three-IsCallable "dt_compat_any_has_prop" (dt_compat_any_has_prop-IsProper edt)
      & two-IsCallable "dt_compat_any_not_has_prop" (dt_compat_any_not_has_prop-IsProper edt)
      & two-IsCallable "dt_node_bool_prop" (dt_node_bool_prop-IsProper edt)
      & two-IsCallable "dt_nodelabel_bool_prop" (dt_nodelabel_bool_prop-IsProper edt)
      & two-IsCallable "dt_nodelabel_int_prop" (dt_nodelabel_int_prop-IsProper edt)
      & two-IsCallable "dt_chosen_bool_prop" (dt_chosen_bool_prop-IsProper edt)
      & two-IsCallable "dt_node_has_prop" (dt_node_has_prop-IsProper edt)
      & two-IsCallable "dt_nodelabel_has_prop" (dt_nodelabel_has_prop-IsProper edt)
      & two_or_three-IsCallable "dt_node_int_prop_int" (dt_node_int_prop_int-IsProper edt)
      & two_or_three-IsCallable "dt_node_int_prop_hex" (dt_node_int_prop_hex-IsProper edt)
      & three_or_four-IsCallable "dt_node_array_prop_int" (dt_node_array_prop_int-IsProper edt)
      & three_or_four-IsCallable "dt_node_array_prop_hex" (dt_node_array_prop_hex-IsProper edt)
      & four_or_five-IsCallable "dt_node_ph_array_prop_int" (dt_node_ph_array_prop_int-IsProper edt)
      & four_or_five-IsCallable "dt_node_ph_array_prop_hex" (dt_node_ph_array_prop_hex-IsProper edt)
      & two-IsCallable "dt_node_ph_prop_path" (dt_node_ph_prop_path-IsProper edt)
      & three-IsCallable "dt_node_str_prop_equals" (dt_node_str_prop_equals-IsProper edt)
      & three-IsCallable "dt_nodelabel_array_prop_has_val"
          (dt_nodelabel_array_prop_has_val-IsProper edt)
      & all_done

module _ {Node Float : Type 0} (floats : Floats Float) (shields : Option Text) where
  text_entries_callable : IsFloats floats → AllCallable (text_entries {Node = Node} floats shields)
  unfolding text_entries arith inc_dec
  text_entries_callable h =
      one-IsCallable "normalize_upper" (λ a. a_text)
      & one-IsCallable "shields_list_contains" (λ a. a_text)
      & two_or_three-IsCallable "substring"
          (λ a b c. IsProper-print (λ t. t) (Sane-substring a b c))
      & many-IsCallable "add" (Sane-fold str ◌+ℤ◌)
      & many-IsCallable "add_hex" (Sane-fold hex ◌+ℤ◌)
      & many-IsCallable "sub" (Sane-fold str ◌-ℤ◌)
      & many-IsCallable "sub_hex" (Sane-fold hex ◌-ℤ◌)
      & many-IsCallable "mul" (Sane-fold str ◌*ℤ◌)
      & many-IsCallable "mul_hex" (Sane-fold hex ◌*ℤ◌)
      & many-IsCallable "div" (Sane-div h str)
      & many-IsCallable "div_hex" (Sane-div h hex)
      & many-IsCallable "mod" (Sane-mod str)
      & many-IsCallable "mod_hex" (Sane-mod hex)
      & many-IsCallable "max" (Sane-fold str max_ℤ)
      & many-IsCallable "max_hex" (Sane-fold hex max_ℤ)
      & many-IsCallable "min" (Sane-fold str min_ℤ)
      & many-IsCallable "min_hex" (Sane-fold hex min_ℤ)
      & many-IsCallable "inc" (λ args. Sane-step str (λ z. z +ℤ pos 1) args (join b','))
      & many-IsCallable "inc_hex" (λ args. Sane-step hex (λ z. z +ℤ pos 1) args (join b','))
      & many-IsCallable "dec" (λ args. Sane-step str (λ z. z -ℤ pos 1) args (join b','))
      & many-IsCallable "dec_hex" (λ args. Sane-step hex (λ z. z -ℤ pos 1) args (join b','))
      & all_done

  -- If floats are divided and converted without failed assertions, then every function of the
  -- table, called with a number of arguments that its entry allows, returns a text or a value of a
  -- property, or raises an exception that is neither a failed assertion nor a wrong number of
  -- arguments. It never returns Python's `None`.
  pub functions-IsCallable :
      (edt : Option (Edt Node)) → IsFloats floats → AllCallable (functions floats shields edt)
  unfolding functions
  functions-IsCallable edt h = AllCallable-append (node_entries_callable edt) (
      AllCallable-append (reg_entries_callable edt)
        (AllCallable-append (prop_entries_callable edt) (text_entries_callable h)))
