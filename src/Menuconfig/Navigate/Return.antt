-- ===== src/Menuconfig/Navigate/Return.antt =====
-- Entering a menu and leaving it again (menuconfig.py).
use ve_root.Base.{
  ℕ, ◌-◌, min, ◌≡◌, ◌≢◌, refl, ap, ◌∙◌, true, false, Option, none, some, List, [], ◌∷◌, ◌==◌,
  get_elem?, arith,
}
use ve_root.Menuconfig.Nodes.{Item, symbol, choice, menu, comment, MenuNode, Tree}
use ve_root.Menuconfig.Shown.{shown_nodes}
use ve_root.Menuconfig.State.{State, center_vertically}
use ve_root.Menuconfig.State.InView.{InView}
use ve_root.Menuconfig.Navigate.{
  index, first_shown, parent_menu, select_shown, select_selection, select_choice_sym,
  select_selected_choice_sym, open_menu, enter_shown, enter_menu, restore_row, leave_to, leave_menu,
}
use ve_root.Menuconfig.Navigate.Index.{Distinct, index-get_self}

-- All but the selected entry and the scroll is the same.
abbrev pub moved : State → State → State
moved s t = record s { sel_node_i = t.sel_node_i; menu_scroll = t.menu_scroll }

module _ (tree : Tree) where
  select_shown-moved :
      (o : Option ℕ) (s : State) → select_shown tree o s ≡ moved s (select_shown tree o s)
  unfolding select_shown center_vertically
  select_shown-moved none s = refl
  select_shown-moved (some k) s = refl

  select_choice_sym-moved :
      (i : Item) (s : State) → select_choice_sym tree i s ≡ moved s (select_choice_sym tree i s)
  unfolding select_choice_sym select_selection
  select_choice_sym-moved (symbol _) s = refl
  select_choice_sym-moved menu s = refl
  select_choice_sym-moved comment s = refl
  select_choice_sym-moved (choice c) s = select_selection-moved (s.conf.selection c)
    where
      select_selection-moved :
          (o : Option ℕ) → select_selection tree o s ≡ moved s (select_selection tree o s)
      select_selection-moved none = refl
      select_selection-moved (some y) =
          select_shown-moved (first_shown (tree.sym_nodes y) s.shown) s

  pub select_selected-moved :
      (s : State) → select_selected_choice_sym tree s ≡ moved s (select_selected_choice_sym tree s)
  unfolding select_selected_choice_sym
  select_selected-moved s = select_choice_sym-moved s.cur_menu.item s

  -- The state that `_leave_menu()` starts from differs from the one before `_enter_menu()` in what
  -- it sets anew only.
  leave_open :
      (m n : MenuNode) (ns : List MenuNode) (s t : State)
      → InView s
      → s.shown ≡ shown_nodes tree s.conf s.show_all s.cur_menu
      → index m.id s.shown ≡ some s.sel_node_i
      → leave_to tree s.cur_menu (moved (open_menu tree m (n ∷ ns) s) t) ≡ some s
  unfolding leave_to open_menu restore_row
  leave_open m n ns s t v current found =
      rw (← current, found)
        (let row : s.sel_node_i - min (s.sel_node_i - s.menu_scroll) (s.height - 1)
              ≡ s.menu_scroll =
            omega arith in
          λ i. some (record s { menu_scroll = row i }))

  -- The selected entry is the menu `m`, which is not the top menu, and whose chain of parents leads
  -- to the current menu.
  pub record IsEntry (m : MenuNode) (s : State) : Type 0 where
    pub selected : get_elem? s.shown s.sel_node_i ≡ some m
    pub is_menu : m.is_menuconfig ≡ true
    pub not_top : m.id ≢ tree.top_node.id
    pub parent : parent_menu tree m.id ≡ some s.cur_menu

  module _ (m : MenuNode) (s : State) (v : InView s)
      (current : s.shown ≡ shown_nodes tree s.conf s.show_all s.cur_menu)
      (distinct : Distinct s.shown) (entry : IsEntry m s) where
    leave_moved :
        (n : MenuNode) (ns : List MenuNode) (t : State)
        → leave_menu tree (moved (open_menu tree m (n ∷ ns) s) t) ≡ some s
    unfolding leave_menu open_menu
    leave_moved n ns t =
        let not_top : (m.id == tree.top_node.id) ≡ false = ground (arith, entry.not_top) in
        let found = index-get_self s.shown s.sel_node_i distinct entry.selected in
        rw (not_top, entry.parent) (leave_open m n ns s t v current found)

    leave-enter_shown :
        (ns : List MenuNode)
        → (enter_shown tree m ns s).1 ≡ true
        → leave_menu tree (enter_shown tree m ns s).0 ≡ some s
    unfolding enter_shown
    leave-enter_shown [] h = cc
    leave-enter_shown (n ∷ ns) h =
        ap (leave_menu tree) (select_selected-moved (open_menu tree m (n ∷ ns) s))
        ∙ leave_moved n ns (select_selected_choice_sym tree (open_menu tree m (n ∷ ns) s))

    -- Leaving a menu right after entering it gives back the whole state before, for an entry that
    -- is the selected one, whose chain of parents leads to the current menu, in a list of entries
    -- that is up to date and has no node twice, and that is drawn.
    pub leave-enter :
        (enter_menu tree m s).1 ≡ true → leave_menu tree (enter_menu tree m s).0 ≡ some s
    unfolding enter_menu
    leave-enter h =
        simp entry.is_menu
          (leave-enter_shown (shown_nodes tree s.conf s.show_all m) (simp entry.is_menu at h))
