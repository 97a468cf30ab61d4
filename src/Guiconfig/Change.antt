-- ===== src/Guiconfig/Change.antt =====
-- Changing values (guiconfig.py): `_set_val()`, `_set_val_dialog()`, `_change_node()` and
-- `_tree_set_val()`. The dialog is answered by texts, each with the button OK, or by Cancel.
pub mod Sound
use ve_root.Base.{
  tri_to_str, ℕ, ◌+◌, ◌%◌, Bool, true, false, not, ◌&&◌, Option, none, some, List, [], ◌∷◌, length,
  get_elem?, if◌then◌else◌, text_eq, ltb,
}
use ve_root.Menuconfig.Nodes.{Item, Text, MenuNode, Tree, Conf, SymType, hex}
use ve_root.Menuconfig.Values.{is_sc, is_typed_in, is_in_values, changeable, check_valid}
use ve_root.Menuconfig.Change.{starts_0x, next_value}
use ve_root.Menuconfig.Session.{World}
use ve_root.Guiconfig.Window.{
  Window, Outcome, waits, raises, returns, Gui, update_tree, with_ref_item,
}

abbrev is_hex : SymType → Bool
is_hex hex = true
is_hex _ = false

module _ (world : World) (tree : Tree) where
  -- `_set_val()`, on the text of the value.
  unfoldable pub set_val : Item → Text → Gui (Unit {0})
  unfolding update_tree with_ref_item
  set_val sc v w =
      if text_eq v (w.conf.str_value sc)
      then returns tt w
      else with_ref_item (update_tree tree)
          (record w { conf = world.set_value w.conf sc v; conf_changed = true })

  -- The callback `ok()` on a text: `none` is an exception, which leaves the dialog open.
  accepted : Item → Text → Conf → Option Text
  accepted sc s conf =
      let s' = if is_hex (tree.orig_type sc) && not (starts_0x s) then b'0' ∷ (b'x' ∷ s) else s in
      elim (check_valid world tree conf sc s') [
        | some true ↦ some s'
        | some false ↦ none
        | none ↦ none
      ]

  -- `_set_val_dialog()`, and what `_change_node()` does with its result.
  type_value : Item → List (Option Text) → Gui (Unit {0})
  unfolding accepted set_val
  type_value sc [] w = waits
  type_value sc (none ∷ answers) w = returns tt w
  type_value sc (some s ∷ answers) w = elim (accepted sc s w.conf) [
    | none ↦ type_value sc answers w
    | some s' ↦ set_val sc s' w
  ]

  set_next : Item → Option ℕ → Gui (Unit {0})
  unfolding set_val
  set_next sc none w = raises w
  set_next sc (some v) w = set_val sc (tri_to_str v) w

  cycle : Item → List ℕ → Gui (Unit {0})
  unfolding set_next
  cycle sc (v ∷ []) w = set_val sc (tri_to_str v) w
  cycle sc vs w = set_next sc (next_value vs (w.conf.tri_value sc)) w

  unfoldable pub change_node : MenuNode → List (Option Text) → Gui (Unit {0})
  unfolding type_value cycle changeable
  change_node n answers w =
      if changeable world tree w.conf n.attrs
      then if is_typed_in (tree.orig_type n.item)
        then type_value n.item answers w
        else cycle n.item (w.conf.assignable n.item) w
      else returns tt w

  -- `_tree_set_val()`, on the selected node.
  unfoldable pub tree_set_val : ℕ → MenuNode → Gui (Unit {0})
  unfolding set_val is_sc
  tree_set_val v n w =
      if is_sc n.item && is_in_values v (w.conf.assignable n.item)
      then set_val n.item (tri_to_str v) w
      else returns tt w
