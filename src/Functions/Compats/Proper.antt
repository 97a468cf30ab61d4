-- ===== src/Functions/Compats/Proper.antt =====
-- The results of the functions on compatibles (scripts/kconfig/kconfigfunctions.py).
use ve_root.Base.{Bool, Option, none, some, Text}
use ve_root.Functions.Devicetree.{Edt}
use ve_root.Functions.Compats
use ve_root.Functions.Proper.{IsProper, a_text, IsProper-yes_no, IsProper-if}

module _ {Node : Type 0} where
  pub dt_has_compat-IsProper :
      (edt : Option (Edt Node)) (a : Text) → IsProper (Compats.dt_has_compat edt a)
  unfolding Compats.dt_has_compat
  dt_has_compat-IsProper none a = a_text
  dt_has_compat-IsProper (some edt) a = IsProper-yes_no (edt.compat2nodes a)

  pub dt_compat_enabled-IsProper :
      (edt : Option (Edt Node)) (a : Text) → IsProper (Compats.dt_compat_enabled edt a)
  unfolding Compats.dt_compat_enabled
  dt_compat_enabled-IsProper none a = a_text
  dt_compat_enabled-IsProper (some edt) a = IsProper-yes_no (Compats.is_key (edt.compat2okay a))

  pub dt_compat_enabled_num-IsProper :
      (edt : Option (Edt Node)) (a : Text) → IsProper (Compats.dt_compat_enabled_num edt a)
  unfolding Compats.dt_compat_enabled_num
  dt_compat_enabled_num-IsProper none a = a_text
  dt_compat_enabled_num-IsProper (some edt) a = a_text

  any_okay :
      (edt : Option (Edt Node)) (c : Text) (p : Edt Node → Node → Bool)
      → IsProper (Compats.any_okay edt c p)
  unfolding Compats.any_okay
  any_okay none c p = a_text
  any_okay (some edt) c p =
      IsProper-if (Compats.is_key (edt.compat2okay c))
        (IsProper-yes_no (Compats.any_node (p edt) (edt.okay_nodes c))) a_text

  pub dt_compat_on_bus-IsProper :
      (edt : Option (Edt Node)) (a : Text) (b : Text) → IsProper (Compats.dt_compat_on_bus edt a b)
  unfolding Compats.dt_compat_on_bus
  dt_compat_on_bus-IsProper edt a b = any_okay edt a (Compats.on_bus b)

  pub dt_compat_any_has_prop-IsProper :
      (edt : Option (Edt Node)) (a : Text) (b : Text) (val : Option Text)
      → IsProper (Compats.dt_compat_any_has_prop edt a b val)
  unfolding Compats.dt_compat_any_has_prop
  dt_compat_any_has_prop-IsProper edt a b val = any_okay edt a (Compats.has_prop b val)

  pub dt_compat_any_not_has_prop-IsProper :
      (edt : Option (Edt Node)) (a : Text) (b : Text)
      → IsProper (Compats.dt_compat_any_not_has_prop edt a b)
  unfolding Compats.dt_compat_any_not_has_prop
  dt_compat_any_not_has_prop-IsProper edt a b = any_okay edt a (Compats.lacks_prop b)

  pub dt_nodelabel_enabled_with_compat-IsProper :
      (edt : Option (Edt Node)) (a : Text) (b : Text)
      → IsProper (Compats.dt_nodelabel_enabled_with_compat edt a b)
  unfolding Compats.dt_nodelabel_enabled_with_compat
  dt_nodelabel_enabled_with_compat-IsProper edt a b = any_okay edt b (Compats.has_label a)

  pub dt_gpio_hogs_enabled-IsProper :
      (edt : Option (Edt Node)) → IsProper (Compats.dt_gpio_hogs_enabled edt)
  unfolding Compats.dt_gpio_hogs_enabled
  dt_gpio_hogs_enabled-IsProper none = a_text
  dt_gpio_hogs_enabled-IsProper (some edt) =
      IsProper-yes_no (Compats.any_node (Compats.is_hog edt) edt.nodes)
