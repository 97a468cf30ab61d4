-- ===== src/Functions/Compats.antt =====
-- The functions of scripts/kconfig/kconfigfunctions.py on all nodes, or those with a compatible.
pub mod Proper
pub mod Search
use ve_root.Base.{
  ℕ, zero, suc, ◌+◌, Bool, true, false, ◌&&◌, ◌||◌, not, Option, none, some, List, [], ◌∷◌, length,
  if◌then◌else◌, ℤ, pos, Text, text_eq, codes,
}
use ve_root.Functions.{Result, ok}
use ve_root.Functions.Numbers.{str}
use ve_root.Functions.Devicetree.{Prop, Edt, Answer, says, answer, yes_no, is_member}

-- A loop that returns at the first node with the property.
pub any_node : {Node : Type 0} → (Node → Bool) → List Node → Bool
any_node p [] = false
any_node p (n ∷ ns) = p n || any_node p ns

module _ {Node : Type 0} where
  unfoldable pub dt_has_compat : Option (Edt Node) → Text → Result (Answer Node)
  dt_has_compat none compat = answer (codes "n")
  dt_has_compat (some edt) compat = yes_no (edt.compat2nodes compat)

  is_key : Option (List Node) → Bool
  is_key none = false
  is_key (some ns) = true

  unfoldable pub dt_compat_enabled : Option (Edt Node) → Text → Result (Answer Node)
  unfolding is_key
  dt_compat_enabled none compat = answer (codes "n")
  dt_compat_enabled (some edt) compat = yes_no (is_key (edt.compat2okay compat))

  unfoldable pub dt_compat_enabled_num : Option (Edt Node) → Text → Result (Answer Node)
  dt_compat_enabled_num none compat = answer (codes "0")
  dt_compat_enabled_num (some edt) compat = answer (str (pos (length (edt.okay_nodes compat))))

  -- The devicetree that the call leaves: `compat2okay` is a `defaultdict`, to which `[compat]` adds
  -- the key if it is missing.
  unfoldable pub after_enabled_num : Edt Node → Text → Edt Node
  after_enabled_num edt compat = record edt {
    compat2okay = λ c. if text_eq c compat then some (edt.okay_nodes compat) else edt.compat2okay c;
  }

  -- `if compat in edt.compat2okay: for node in edt.compat2okay[compat]: …`
  any_okay : Option (Edt Node) → Text → (Edt Node → Node → Bool) → Result (Answer Node)
  unfolding any_node is_key
  any_okay none compat p = answer (codes "n")
  any_okay (some edt) compat p =
      if is_key (edt.compat2okay compat)
      then yes_no (any_node (p edt) (edt.okay_nodes compat))
      else yes_no false

  on_bus : Text → Edt Node → Node → Bool
  on_bus bus edt node = elim (edt.on_buses node) [ none ↦ false | some buses ↦ is_member bus buses ]

  unfoldable pub dt_compat_on_bus : Option (Edt Node) → Text → Text → Result (Answer Node)
  unfolding any_okay on_bus
  dt_compat_on_bus edt compat bus = any_okay edt compat (on_bus bus)

  has_value : Option Text → Edt Node → Option (Prop Node) → Bool
  has_value val edt none = false
  has_value none edt (some p) = true
  has_value (some t) edt (some p) = text_eq (edt.str_val p) t

  has_prop : Text → Option Text → Edt Node → Node → Bool
  unfolding has_value
  has_prop prop val edt node = has_value val edt (edt.props node prop)

  unfoldable pub dt_compat_any_has_prop :
      Option (Edt Node) → Text → Text → Option Text → Result (Answer Node)
  unfolding any_okay has_prop
  dt_compat_any_has_prop edt compat prop val = any_okay edt compat (has_prop prop val)

  lacks_prop : Text → Edt Node → Node → Bool
  lacks_prop prop edt node = elim (edt.props node prop) [ none ↦ true | some p ↦ false ]

  unfoldable pub dt_compat_any_not_has_prop : Option (Edt Node) → Text → Text → Result (Answer Node)
  unfolding any_okay lacks_prop
  dt_compat_any_not_has_prop edt compat prop = any_okay edt compat (lacks_prop prop)

  has_label : Text → Edt Node → Node → Bool
  has_label label edt node = is_member label (edt.labels node)

  unfoldable pub dt_nodelabel_enabled_with_compat :
      Option (Edt Node) → Text → Text → Result (Answer Node)
  unfolding any_okay has_label
  dt_nodelabel_enabled_with_compat edt label compat = any_okay edt compat (has_label label)

  is_hog : Edt Node → Node → Bool
  is_hog edt node = edt.gpio_hogs node && text_eq (edt.status node) (codes "okay")

  unfoldable pub dt_gpio_hogs_enabled : Option (Edt Node) → Result (Answer Node)
  unfolding any_node is_hog
  dt_gpio_hogs_enabled none = answer (codes "n")
  dt_gpio_hogs_enabled (some edt) = yes_no (any_node (is_hog edt) edt.nodes)
