-- ===== src/Guiconfig/Moves.antt =====
-- Modes and menus (guiconfig.py): `_do_showall()`, `_do_tree_mode()`, `_enter_menu()`,
-- `_leave_menu()`, `_jump_to()` and `_tree_toggle_open()`. `find` is a lookup in `_id_to_node`.
pub mod Sound
pub mod Full
pub mod Return
use mathlib.Core.List.{reverse}
use ve_root.Base.{
  ℕ, Bool, true, false, not, ◌&&◌, ◌||◌, Option, none, some, List, [], ◌∷◌, ◌==◌, if◌then◌else◌,
}
use ve_root.Menuconfig.Nodes.{MenuNode, Tree, Conf, is_symbol}
use ve_root.Menuconfig.Navigate.{is_in, parent_menu}
use ve_root.Guiconfig.Shown.{shown_menu_nodes}
use ve_root.Guiconfig.View.{Place, top_level, under, Row, get_children, build_full}
use ve_root.Guiconfig.Scroll.{keep_scroll}
use ve_root.Guiconfig.Window.{
  Window, Outcome, raises, returns, Gui, ◌>>=◌, ◌>>◌, pure, modify, set_rows, set_open, select,
  update_tree, with_ref_item,
}
use ve_root.Guiconfig.Files.{is_empty}

abbrev pub set_show_all : Bool → Window → Window
set_show_all b w = record w { show_all = b }

abbrev set_cur_menu : MenuNode → Window → Window
set_cur_menu m w = record w { cur_menu = m }

abbrev pub set_single_menu : Bool → Window → Window
set_single_menu b w = record w { single_menu = b }

-- `_select(_tree, _tree.get_children()[0])`, an `IndexError` if the tree is empty.
unfoldable pub select_first : List ℕ → Gui (Unit {0})
select_first [] w = raises w
select_first (i ∷ _) w = returns tt (select i w)

module _ (tree : Tree) where
  -- `_nothing_shown()`
  nothing_shown : Window → Bool
  nothing_shown w =
      is_empty
        (shown_menu_nodes w.conf w.show_all (if w.single_menu then w.cur_menu else tree.top_node))

  -- `_do_showall()`, but for the scroll. `ref` is what `_loc_ref_item()` finds on the screen.
  do_showall : ℕ → Gui (Unit {0})
  unfolding nothing_shown update_tree with_ref_item keep_scroll
  do_showall ref w =
      if nothing_shown w
      then returns tt (set_show_all true w)
      else with_ref_item (keep_scroll ref (update_tree tree)) w

  unfoldable pub toggle_showall : ℕ → Gui (Unit {0})
  unfolding do_showall
  toggle_showall ref w = do_showall ref (set_show_all (not w.show_all) w)

  pub enter_menu : MenuNode → Gui (Unit {0})
  unfolding update_tree
  enter_menu m w = update_tree tree (set_cur_menu m w)

  unfoldable pub enter_menu_and_select_first : MenuNode → Gui (Unit {0})
  unfolding enter_menu
  enter_menu_and_select_first m w =
      (enter_menu m >>= λ _ w'. select_first (get_children top_level w'.rows) w') w

  leave_to : Option MenuNode → Gui (Unit {0})
  unfolding enter_menu select
  leave_to none w = raises w
  leave_to (some parent) w = (enter_menu parent >>= λ _. modify (select w.cur_menu.id)) w

  unfoldable pub leave_menu : Gui (Unit {0})
  unfolding leave_to parent_menu
  leave_menu w =
      if w.cur_menu.id == tree.top_node.id
      then returns tt w
      else leave_to (parent_menu tree w.cur_menu.id) w

  -- `_build_full_tree()` on a node of the tree that is no symbol.
  pub populate : MenuNode → Gui (Unit {0})
  unfolding build_full
  populate n w =
      if is_symbol n.item
      then returns tt w
      else set_rows (build_full tree w.conf w.show_all w.is_open n w.rows) w

  populate_all : List MenuNode → Gui (Unit {0})
  unfolding populate
  populate_all [] w = returns tt w
  populate_all (n ∷ ns) w = (populate n >>= λ _. populate_all ns) w

  -- The loop of `_load_parents()` over the parents, the outermost first.
  load_from : List MenuNode → Gui (Unit {0})
  unfolding populate_all
  load_from [] w = returns tt w
  load_from (n ∷ ns) w = if w.is_open n.id then load_from ns w else populate_all (n ∷ ns) w

  -- The parents up to the top menu, which is left out.
  inner_parents : List MenuNode → List MenuNode
  inner_parents [] = []
  inner_parents (p ∷ ps) = if p.id == tree.top_node.id then [] else p ∷ inner_parents ps

  pub load_parents : MenuNode → Gui (Unit {0})
  unfolding load_from inner_parents
  load_parents n = load_from (reverse (inner_parents (tree.ancestors n.id)))

  enter_parent : Option MenuNode → Gui (Unit {0})
  unfolding enter_menu
  enter_parent none w = raises w
  enter_parent (some m) w = enter_menu m w

  go_to : (single_menu : Bool) → MenuNode → Gui (Unit {0})
  unfolding enter_parent load_parents parent_menu
  go_to true n = enter_parent (parent_menu tree n.id)
  go_to false n = load_parents n

  unfoldable pub jump_to : MenuNode → Gui (Unit {0})
  unfolding go_to select
  jump_to n w = (go_to w.single_menu n >>= λ _. modify (select n.id)) w

  -- An update in full-tree mode only, where the jump that follows makes none.
  update_unless : (single_menu : Bool) → Gui (Unit {0})
  unfolding update_tree
  update_unless true w = returns tt w
  update_unless false w = update_tree tree w

  -- `_do_tree_mode()` after the switch, `n` being the node of `_loc_ref_item()`.
  unfoldable pub do_tree_mode : MenuNode → Gui (Unit {0})
  unfolding update_unless jump_to
  do_tree_mode n w = (update_unless w.single_menu >>= λ _. jump_to n) w

  unfoldable pub toggle_tree_mode : MenuNode → Gui (Unit {0})
  unfolding do_tree_mode with_ref_item
  toggle_tree_mode n w = with_ref_item (do_tree_mode n) (set_single_menu (not w.single_menu) w)

  jump_shown : Option MenuNode → MenuNode → Gui (Unit {0})
  unfolding is_in update_unless jump_to shown_menu_nodes
  jump_shown none n w = raises w
  jump_shown (some m) n w =
      if is_in n.id (shown_menu_nodes w.conf w.show_all m)
      then jump_to n w
      else (update_unless w.single_menu >>= λ _. jump_to n) (set_show_all true w)

  -- `jump_to_selected()` in the jump-to dialog.
  unfoldable pub jump_to_selected : MenuNode → Gui (Unit {0})
  unfolding jump_shown parent_menu
  jump_to_selected n w = jump_shown (parent_menu tree n.id) n w

  -- `_tree_toggle_open()`
  unfoldable pub tree_toggle_open : MenuNode → Gui (Unit {0})
  unfolding populate
  tree_toggle_open n w =
      if w.is_open n.id
      then returns tt (set_open n.id false w)
      else (populate n >>= λ _. modify (set_open n.id true)) w

  -- `_tree_open()` in the event that an item is opened.
  unfoldable pub tree_open : MenuNode → Gui (Unit {0})
  unfolding populate
  tree_open n w = if w.single_menu then returns tt w else populate n w
