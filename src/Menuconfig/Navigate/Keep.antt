-- ===== src/Menuconfig/Navigate/Keep.antt =====
-- The selected entry when menus are entered, left, toggled and updated (menuconfig.py).
use mathlib.Core.List.{reverse}
use ve_root.Base.{
  ℕ, ◌+◌, ◌<◌, ◌≡◌, refl, inl, inr, not, Option, none, some, List, [], ◌∷◌, length, get_elem?, take,
  drop, Bool-cases, Option-cases, arith, ◌==◌, ◌∙◌, Ensures, Ensures-bind, Ensures-if, Ensures-some,
}
use ve_root.Menuconfig.Nodes.{Item, symbol, choice, menu, comment, MenuNode, Tree}
use ve_root.Menuconfig.Shown.{shown_nodes}
use ve_root.Menuconfig.State.{State}
use ve_root.Menuconfig.State.InView.{InView, center_vertically-InView}
use ve_root.Menuconfig.Navigate.{
  index, first_shown, open_menu, enter_shown, parent_menu, select_shown, select_selection,
  select_choice_sym, select_selected_choice_sym, enter_menu, restore_row, leave_to, leave_menu,
  closest, keep_row, toggle_to, toggle_show_all, update_menu,
}
use ve_root.Menuconfig.Navigate.Index.{index-lt, first_shown-lt}

module _ (tree : Tree) where
  select_shown-InView :
      (o : Option ℕ) (s : State)
      → ((k : ℕ) → o ≡ some k → k < length s.shown)
      → InView s
      → InView (select_shown tree o s)
  unfolding select_shown
  select_shown-InView none s h v = v
  select_shown-InView (some k) s h v =
      center_vertically-InView (record s { sel_node_i = k }) (h k refl) (omega arith)

  select_choice_sym-InView : (i : Item) (s : State) → InView s → InView (select_choice_sym tree i s)
  unfolding select_choice_sym
  select_choice_sym-InView (symbol _) s v = v
  select_choice_sym-InView menu s v = v
  select_choice_sym-InView comment s v = v
  select_choice_sym-InView (choice c) s v = elim (Option-cases (s.conf.selection c)) [
    | inl e ↦ rw (e, select_selection) v
    | inr (y, e) ↦
        rw (e, select_selection)
          (select_shown-InView (first_shown (tree.sym_nodes y) s.shown) s
            (λ k h. first_shown-lt (tree.sym_nodes y) s.shown h) v)
  ]

  pub select_selected-InView : (s : State) → InView s → InView (select_selected_choice_sym tree s)
  unfolding select_selected_choice_sym
  select_selected-InView s v = select_choice_sym-InView s.cur_menu.item s v

  enter_shown-InView :
      (m : MenuNode) (ns : List MenuNode) (s : State)
      → InView s
      → InView (enter_shown tree m ns s).0
  unfolding enter_shown open_menu
  enter_shown-InView m [] s v = v
  enter_shown-InView m (n ∷ ns) s v =
      select_selected-InView (open_menu tree m (n ∷ ns) s)
        (record { selected = omega arith; not_above = omega arith; not_below = omega arith })

  pub enter_menu-InView : (m : MenuNode) (s : State) → InView s → InView (enter_menu tree m s).0
  unfolding enter_menu
  enter_menu-InView m s v = elim (Bool-cases m.is_menuconfig) [
    | inl e ↦ simp e (enter_shown-InView m (shown_nodes tree s.conf s.show_all m) s v)
    | inr e ↦ simp e v
  ]

  restore_row-InView :
      (rows : List ℕ) (s : State)
      → s.sel_node_i < length s.shown
      → 0 < s.height
      → InView (restore_row tree rows s)
  unfolding restore_row
  restore_row-InView [] s h p = center_vertically-InView s h p
  restore_row-InView (r ∷ rs) s h p = ground arith

  leave_to-InView :
      (parent : MenuNode) (s : State) → InView s → Ensures InView (leave_to tree parent s)
  unfolding leave_to
  leave_to-InView parent s v =
      let new = shown_nodes tree s.conf s.show_all parent in
      Ensures-bind InView (index s.cur_menu.id new) _ λ k e. Ensures-some InView _ (
        restore_row-InView s.parent_screen_rows
          (record s { shown = new; sel_node_i = k; cur_menu = parent })
          (index-lt s.cur_menu.id new e) (omega arith))

  pub leave_menu-InView : (s : State) → InView s → Ensures InView (leave_menu tree s)
  unfolding leave_menu
  leave_menu-InView s v =
      Ensures-if InView (s.cur_menu.id == tree.top_node.id) _ _ (Ensures-some InView s v)
        (Ensures-bind InView (parent_menu tree s.cur_menu.id) _ λ p e. leave_to-InView p s v)

  pub update_menu-InView : (s : State) → InView s → Ensures InView (update_menu tree s)
  unfolding update_menu keep_row
  update_menu-InView s v =
      let new = shown_nodes tree s.conf s.show_all s.cur_menu in
      Ensures-bind InView (get_elem? s.shown s.sel_node_i) _ λ n _.
        Ensures-bind InView (index n.id new) _ λ k e.
          let inside = index-lt n.id new e in
          Ensures-some InView _
            (record { selected = inside; not_above = omega arith; not_below = omega arith })

  pub closest-lt :
      (s : State) (new : List MenuNode) (k : ℕ) → closest tree s new ≡ some k → k < length new
  unfolding closest
  closest-lt s new k h =
      elim (Option-cases (first_shown (reverse (take (s.sel_node_i + 1) s.shown)) new)) [
        | inl e ↦ first_shown-lt (drop (s.sel_node_i + 1) s.shown) new (rw (e, closest) at h)
        | inr (j, e) ↦
            first_shown-lt (reverse (take (s.sel_node_i + 1) s.shown)) new
              (e ∙ (rw (e, closest) at h))
      ]

  toggle_to-InView :
      (o : Option ℕ) (new : List MenuNode) (s : State)
      → InView s
      → ((k : ℕ) → o ≡ some k → k < length new)
      → InView (toggle_to tree o new s)
  unfolding toggle_to keep_row
  toggle_to-InView none new s v h = record {
    selected = v.selected;
    not_above = v.not_above;
    not_below = v.not_below;
  }
  toggle_to-InView (some k) new s v h = let inside = h k refl in ground arith

  pub toggle_show_all-InView : (s : State) → InView s → InView (toggle_show_all tree s)
  unfolding toggle_show_all
  toggle_show_all-InView s v =
      let new = shown_nodes tree s.conf (not s.show_all) s.cur_menu in
      toggle_to-InView (closest tree s new) new s v (closest-lt s new)
