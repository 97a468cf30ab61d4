-- ===== src/Menuconfig/Values.antt =====
-- Changing values (menuconfig.py): `_changeable()`, `_check_valid()`, `_set_val()`,
-- `_set_sel_node_tri_val()` and `_needs_save()`.
pub mod Sound
pub mod Valid
use ve_root.Base.{
  tri_to_str, ℕ, ℤ, leb_ℤ, zero, suc, Bool, true, false, not, ◌&&◌, ◌||◌, Option, none, some, List,
  [], ◌∷◌, length, get_elem?, ltb, ◌==◌, if◌then◌else◌, text_eq,
}
use ve_root.Menuconfig.Nodes.{
  Item, symbol, choice, menu, comment, Prompt, Attrs, MenuNode, Tree, Conf, Text, SymType, bool,
  tristate, string, int, hex, unknown, Range,
}
use ve_root.Menuconfig.Shown.{truth, prompt_shows}
use ve_root.Menuconfig.State.{State}
use ve_root.Menuconfig.Navigate.{update_menu}
use ve_root.Menuconfig.Session.{
  World, Session, UserValue, tri, text, Outcome, waits, raises, returns, Ui, ◌>>=◌, ◌>>◌, pure, get,
  modify, try_ui,
}

-- `orig_type in (INT, HEX)` and `orig_type in (STRING, INT, HEX)`.
abbrev pub is_number : SymType → Bool
is_number int = true
is_number hex = true
is_number _ = false

abbrev pub is_typed_in : SymType → Bool
is_typed_in string = true
is_typed_in t = is_number t

abbrev pub base_of : SymType → ℕ
base_of int = 10
base_of _ = 16

-- The values of `TRI_TO_STR`, "n", "m" and "y".

unfoldable pub is_sc : Item → Bool
is_sc (symbol _) = true
is_sc (choice _) = true
is_sc _ = false

abbrev pub is_in_values : ℕ → List ℕ → Bool
is_in_values v [] = false
is_in_values v (w ∷ ws) = v == w || is_in_values v ws

pub node_at : Option MenuNode → Ui MenuNode
node_at none s ks = raises
node_at (some n) s ks = returns n s ks

-- `_shown[_sel_node_i]`, an `IndexError` if there is none.
unfoldable pub selected_node : Ui MenuNode
unfolding node_at
selected_node s ks = node_at (get_elem? s.shown s.sel_node_i) s ks

module _ (world : World) (tree : Tree) where
  in_choice : Option ℕ → Bool
  in_choice none = false
  in_choice (some _) = true

  unfoldable pub is_y_mode_choice_sym : Conf → Item → Bool
  unfolding in_choice
  is_y_mode_choice_sym conf (symbol s) = in_choice (tree.choice_of s) && conf.sym_visibility s == 2
  is_y_mode_choice_sym conf _ = false

  unfoldable pub changeable : Conf → Attrs → Bool
  unfolding is_sc is_y_mode_choice_sym prompt_shows
  changeable conf a =
      is_sc a.item
      && prompt_shows conf a.prompt
      && (is_typed_in (tree.orig_type a.item)
          || ltb 1 (length (conf.assignable a.item))
          || is_y_mode_choice_sym conf a.item)

  -- The loop over the ranges. The upper end is read only if the lower one is kept to.
  check_ranges : Conf → ℕ → ℤ → List Range → Option Bool
  check_ranges conf base v [] = some true
  check_ranges conf base v (r ∷ rs) =
      let rest = check_ranges conf base v rs in
      if truth (conf.expr_value r.cond)
      then elim (world.parse_int base (conf.str_value (symbol r.low))) [
        | none ↦ none
        | some low ↦
            if leb_ℤ low v
            then elim (world.parse_int base (conf.str_value (symbol r.high))) [
              | none ↦ none
              | some high ↦ some (leb_ℤ v high)
            ]
            else some false
      ]
      else rest

  check_typed : SymType → Conf → Item → Text → Option Bool
  unfolding check_ranges
  check_typed t conf sc s =
      if not (is_number t) then some true else elim (world.parse_int (base_of t) s) [
        | none ↦ some false
        | some v ↦ check_ranges conf (base_of t) v (tree.ranges sc)
      ]

  -- `none` is the `ValueError` of an end of a range that is no number.
  unfoldable pub check_valid : Conf → Item → Text → Option Bool
  unfolding check_typed
  check_valid conf sc s = check_typed (tree.orig_type sc) conf sc s

  -- `_set_val()`, on the text of the value.
  unfoldable pub set_val : Item → Text → Ui (Unit {0})
  set_val sc v s ks =
      if text_eq v (s.conf.str_value sc)
      then returns tt s ks
      else try_ui (update_menu tree)
          (record s {
            ui = record s.ui { conf = world.set_value s.conf sc v; conf_changed = true };
          })
          ks

  set_assignable : ℕ → Item → Ui (Unit {0})
  unfolding is_sc set_val
  set_assignable v sc s ks =
      if is_sc sc && is_in_values v (s.conf.assignable sc)
      then set_val sc (tri_to_str v) s ks
      else returns tt s ks

  unfoldable pub set_sel_node_tri_val : ℕ → Ui (Unit {0})
  unfolding set_assignable selected_node
  set_sel_node_tri_val v = do n ← selected_node; set_assignable v n.item

  -- One round of the loop of `_needs_save()`.
  outdated : SymType → Conf → ℕ → Option UserValue → Bool
  outdated t conf s none = world.config_string conf s
  outdated bool conf s (some (tri v)) = not (conf.tri_value (symbol s) == v)
  outdated tristate conf s (some (tri v)) = not (conf.tri_value (symbol s) == v)
  outdated string conf s (some (text v)) = not (text_eq (conf.str_value (symbol s)) v)
  outdated int conf s (some (text v)) = not (text_eq (conf.str_value (symbol s)) v)
  outdated hex conf s (some (text v)) = not (text_eq (conf.str_value (symbol s)) v)
  outdated unknown conf s (some (text v)) = not (text_eq (conf.str_value (symbol s)) v)
  outdated _ conf s (some _) = true

  any_outdated : Conf → List ℕ → Bool
  unfolding outdated
  any_outdated conf [] = false
  any_outdated conf (s ∷ ss) =
      outdated (tree.orig_type (symbol s)) conf s (world.user_value conf s) || any_outdated conf ss

  unfoldable pub needs_save : Conf → Bool
  unfolding any_outdated
  needs_save conf = world.missing_syms conf || any_outdated conf world.unique_defined_syms
