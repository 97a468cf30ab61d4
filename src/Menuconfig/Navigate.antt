-- ===== src/Menuconfig/Navigate.antt =====
-- Moving between menus (menuconfig.py): `_enter_menu()`, `_leave_menu()`, `_jump_to()`,
-- `_toggle_show_all()` and `_update_menu()`. `none` is an uncaught exception: the `ValueError` of
-- `list.index()`, the `IndexError` of a list, or the `AttributeError` at the `parent` of the root.
pub mod Current
pub mod Frame
pub mod Index
pub mod Keep
pub mod Return
pub mod Jump
use ve_root.Base.{
  ℕ, zero, suc, ◌+◌, ◌-◌, min, Bool, true, false, not, ◌&&◌, ◌||◌, Option, none, some, List, [],
  ◌∷◌, length, get_elem?, take, drop, ◌==◌, if◌then◌else◌, ◌>>=◌,
}
use mathlib.Core.List.{reverse}
use mathlib.Core.Option
use ve_root.Menuconfig.Nodes.{
  Item, symbol, choice, menu, comment, is_choice, is_menu, Chain, end, node, MenuNode, menu_node,
  Tree, Conf,
}
use ve_root.Menuconfig.Shown.{shown_nodes}
use ve_root.Menuconfig.State.{State, center_vertically}

-- `node in nodes` and `nodes.index(node)`, by identity.
unfoldable pub is_in : ℕ → List MenuNode → Bool
is_in i [] = false
is_in i (n ∷ ns) = if n.id == i then true else is_in i ns

unfoldable pub index : ℕ → List MenuNode → Option ℕ
index i [] = none
index i (n ∷ ns) = if n.id == i then some 0 else Option.map suc (index i ns)

-- The first of some nodes that is among the shown ones: its index there.
pub first_shown : List MenuNode → List MenuNode → Option ℕ
first_shown [] shown = none
first_shown (n ∷ ns) shown = elim (index n.id shown) [
  | none ↦ first_shown ns shown
  | some k ↦ some k
]

-- The loop of `_parent_menu()` over the chain of parents.
pub first_menu : List MenuNode → Option MenuNode
first_menu [] = none
first_menu (m ∷ ms) = if m.is_menuconfig then some m else first_menu ms

-- `jump_into` of `_jump_to()`: a non-empty choice or menu.
unfoldable pub jumps_into : MenuNode → Chain → Bool
jumps_into n end = false
jumps_into n (node _ _ _) = is_choice n.item || is_menu n.item

module _ (tree : Tree) where
  unfoldable pub parent_menu : ℕ → Option MenuNode
  unfolding first_menu
  parent_menu i = first_menu (tree.ancestors i)

  select_shown : Option ℕ → State → State
  select_shown none s = s
  select_shown (some k) s = center_vertically (record s { sel_node_i = k })

  select_selection : Option ℕ → State → State
  unfolding select_shown
  select_selection none s = s
  select_selection (some sym) s = select_shown (first_shown (tree.sym_nodes sym) s.shown) s

  select_choice_sym : Item → State → State
  unfolding select_selection
  select_choice_sym (choice c) s = select_selection (s.conf.selection c) s
  select_choice_sym _ s = s

  -- `_select_selected_choice_sym()`, and the test `isinstance(…, Choice)` before its calls.
  pub select_selected_choice_sym : State → State
  unfolding select_choice_sym
  select_selected_choice_sym s = select_choice_sym s.cur_menu.item s

  -- `_enter_menu()` up to the jump into the menu, `shown_sub` being what the menu shows.
  pub open_menu : MenuNode → List MenuNode → State → State
  open_menu m shown_sub s = record s {
    parent_screen_rows = (s.sel_node_i - s.menu_scroll) ∷ s.parent_screen_rows;
    cur_menu = m;
    shown = shown_sub;
    sel_node_i = 0;
    menu_scroll = 0;
  }

  enter_shown : MenuNode → List MenuNode → State → State × Bool
  enter_shown m [] s = (s, false)
  enter_shown m (n ∷ ns) s = (select_selected_choice_sym (open_menu m (n ∷ ns) s), true)

  unfoldable pub enter_menu : MenuNode → State → State × Bool
  unfolding enter_shown open_menu
  enter_menu m s =
      if not m.is_menuconfig
      then (s, false)
      else enter_shown m (shown_nodes tree s.conf s.show_all m) s

  -- The last lines of `_leave_menu()`: the row of the entry in the parent menu.
  restore_row : List ℕ → State → State
  restore_row [] s = center_vertically s
  restore_row (row ∷ rows) s = record s {
    parent_screen_rows = rows;
    menu_scroll = s.sel_node_i - min row (s.height - 1);
  }

  pub leave_to : MenuNode → State → Option State
  unfolding restore_row
  leave_to parent s =
      let shown' = shown_nodes tree s.conf s.show_all parent in
      do
        k ← index s.cur_menu.id shown'
        some (
            restore_row s.parent_screen_rows
              (record s { shown = shown'; sel_node_i = k; cur_menu = parent }))

  unfoldable pub leave_menu : State → Option State
  unfolding leave_to
  leave_menu s =
      if s.cur_menu.id == tree.top_node.id
      then some s
      else (do parent ← parent_menu s.cur_menu.id; leave_to parent s)

  -- The two loops of `_toggle_show_all()`: backwards from the selected node, then forwards.
  pub closest : State → List MenuNode → Option ℕ
  closest s new_shown = elim (first_shown (reverse (take (s.sel_node_i + 1) s.shown)) new_shown) [
    | some k ↦ some k
    | none ↦ first_shown (drop (s.sel_node_i + 1) s.shown) new_shown
  ]

  -- `max(_sel_node_i - old_row, 0)`, `old_row` being the old `_sel_node_i - _menu_scroll`.
  pub keep_row : State → ℕ → ℕ
  keep_row s k = k + s.menu_scroll - s.sel_node_i

  toggle_to : Option ℕ → List MenuNode → State → State
  toggle_to none new_shown s = record s { show_all = true }
  toggle_to (some k) new_shown s = record s {
    show_all = not s.show_all;
    shown = new_shown;
    sel_node_i = k;
    menu_scroll = keep_row s k;
  }

  unfoldable pub toggle_show_all : State → State
  unfolding toggle_to closest keep_row
  toggle_show_all s =
      let new_shown = shown_nodes tree s.conf (not s.show_all) s.cur_menu in
      toggle_to (closest s new_shown) new_shown s

  -- `_update_menu()`, on a state that has the new values.
  unfoldable pub update_menu : State → Option State
  unfolding keep_row
  update_menu s =
      let new_shown = shown_nodes tree s.conf s.show_all s.cur_menu in
      do
        sel_node ← get_elem? s.shown s.sel_node_i
        k ← index sel_node.id new_shown
        some (record s { shown = new_shown; sel_node_i = k; menu_scroll = keep_row s k })

  -- `_jump_to()`: the part after `_cur_menu` and `node` are set, `target` being the latter.
  show_target : ℕ → State → State
  show_target target s =
      let shown' = shown_nodes tree s.conf s.show_all s.cur_menu in
      if is_in target shown'
      then record s { shown = shown' }
      else record s { show_all = true; shown = shown_nodes tree s.conf true s.cur_menu }

  -- `forced` is `not old_show_all and _show_all`.
  finish_jump : Bool → Bool → State → State
  finish_jump jump_into forced s =
      let s₁ = if jump_into && forced then toggle_show_all s else s in
      let s₂ = center_vertically s₁ in if jump_into then select_selected_choice_sym s₂ else s₂

  land : Bool → ℕ → State → Option State
  unfolding show_target finish_jump
  land jump_into target s =
      let s₁ = show_target target s in
      do
        k ← index target s₁.shown
        some (finish_jump jump_into (not s.show_all && s₁.show_all) (record s₁ { sel_node_i = k }))

  jump_from : MenuNode → Bool → Chain → State → Option State
  unfolding land
  jump_from n true (node a l _) s =
      land true a.id (record s { parent_screen_rows = []; cur_menu = n })
  jump_from n _ _ s = do
    parent ← parent_menu n.id
    land false n.id (record s { parent_screen_rows = []; cur_menu = parent })

  unfoldable pub jump_to : MenuNode → State → Option State
  unfolding jump_from jumps_into
  jump_to n s = jump_from n (jumps_into n n.list) n.list s
