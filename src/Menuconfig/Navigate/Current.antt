-- ===== src/Menuconfig/Navigate/Current.antt =====
-- The list of shown entries against what the menu shows, and the entry that stays selected
-- (menuconfig.py).
use mathlib.Core.List.{reverse, reverse-append}
use ve_root.Base.{
  ℕ, zero, suc, ◌+◌, ◌-◌, min, ◌≡◌, refl, ap, ◌∙◌, true, false, not, Option, none, some, List, [],
  ◌∷◌, ◌++◌, get_elem?, take, Bool-cases, inl, inr, arith, get_elem?-lt, ◌==◌, Ensures,
  Ensures-some, Ensures-bind, Ensures-if,
}
use native.Mathlib.Numerals.{add-one}
use ve_root.Menuconfig.Nodes.{MenuNode, Tree, is_choice}
use ve_root.Menuconfig.Shown.{shown_nodes}
use ve_root.Menuconfig.Shown.ShowAll.{shown_nodes-show_all}
use ve_root.Menuconfig.State.{State, center_vertically}
use ve_root.Menuconfig.State.InView.{InView}
use ve_root.Menuconfig.Navigate.{
  is_in, index, first_shown, closest, keep_row, toggle_to, toggle_show_all, update_menu, enter_menu,
  enter_shown, open_menu, leave_menu, leave_to, restore_row, parent_menu,
}
use ve_root.Menuconfig.Navigate.Index.{is_in-index, not-is_in, is_in-get, is_in-sublist}
use ve_root.Menuconfig.Navigate.Return.{select_selected-moved}

take-suc :
    (xs : List MenuNode) (k : ℕ) {n : MenuNode}
    → get_elem? xs k ≡ some n
    → take (suc k) xs ≡ take k xs ++ (n ∷ [])
take-suc [] k h = cc
take-suc (x ∷ xs) zero h = cc
take-suc (x ∷ xs) (suc k) {n} h = ap (x ∷◌) (take-suc xs k {n = n} h)

first_shown-head :
    (n : MenuNode) (ns new : List MenuNode) {k : ℕ}
    → index n.id new ≡ some k
    → first_shown (n ∷ ns) new ≡ some k
unfolding first_shown
first_shown-head n ns new e = rw (e, first_shown)

module _ (tree : Tree) where
  abbrev pub IsCurrent : State → Type 0
  IsCurrent s = s.shown ≡ shown_nodes tree s.conf s.show_all s.cur_menu

  -- The search for the closest node begins with the selected node itself.
  closest_self :
      (s : State) (new : List MenuNode) {n : MenuNode} {k : ℕ}
      → get_elem? s.shown s.sel_node_i ≡ some n
      → index n.id new ≡ some k
      → closest tree s new ≡ some k
  unfolding closest first_shown
  closest_self s new {n} {k} h e =
      let upto : reverse (take (s.sel_node_i + 1) s.shown)
          ≡ n ∷ reverse (take s.sel_node_i s.shown) =
        rw (add-one, take-suc s.shown s.sel_node_i h, reverse-append) refl in
      let here =
        ap (λ (l : List MenuNode). first_shown l new) upto
        ∙ first_shown-head n (reverse (take s.sel_node_i s.shown)) new e in
      rw (here, closest)

  -- If the selected node is shown in the other mode too, it stays selected.
  toggle-selected :
      (s : State) {n : MenuNode}
      → get_elem? s.shown s.sel_node_i ≡ some n
      → is_in n.id (shown_nodes tree s.conf (not s.show_all) s.cur_menu) ≡ true
      → ((toggle_show_all tree s).show_all ≡ not s.show_all)
        × IsCurrent (toggle_show_all tree s)
        × (index n.id (toggle_show_all tree s).shown ≡ some (toggle_show_all tree s).sel_node_i)
  unfolding toggle_show_all toggle_to
  toggle-selected s {n} h there =
      let new = shown_nodes tree s.conf (not s.show_all) s.cur_menu in
      let (k, e) = is_in-index n.id new there in
      let kept = closest_self s new h e in (rw kept, rw kept, rw kept e)

  -- In a menu that is no choice, turning show-all mode on succeeds and keeps the selected node.
  toggle_on-selected :
      (s : State) {n : MenuNode}
      → IsCurrent s
      → is_choice s.cur_menu.item ≡ false
      → s.show_all ≡ false
      → get_elem? s.shown s.sel_node_i ≡ some n
      → is_in n.id (shown_nodes tree s.conf (not s.show_all) s.cur_menu) ≡ true
  toggle_on-selected s {n} current no_choice off h = simp off (
      is_in-sublist n.id (shown_nodes-show_all s.conf tree s.cur_menu no_choice)
        (rw (current, off) at (is_in-get s.shown s.sel_node_i h)))

  toggle-IsCurrent_off :
      (s : State) (o : Option ℕ)
      → IsCurrent s
      → s.show_all ≡ true
      → IsCurrent (toggle_to tree o (shown_nodes tree s.conf (not s.show_all) s.cur_menu) s)
  unfolding toggle_to
  toggle-IsCurrent_off s none current on = simp (← on) current
  toggle-IsCurrent_off s (some k) current on = refl

  -- Outside choices, `_toggle_show_all()` leaves an up-to-date list of entries.
  pub toggle-IsCurrent :
      (s : State)
      → InView s
      → is_choice s.cur_menu.item ≡ false
      → IsCurrent s
      → IsCurrent (toggle_show_all tree s)
  unfolding toggle_show_all
  toggle-IsCurrent s v no_choice current = elim (Bool-cases s.show_all) [
    | inl on ↦
        toggle-IsCurrent_off s
          (closest tree s (shown_nodes tree s.conf (not s.show_all) s.cur_menu)) current on
    | inr off ↦
        let (n, h) = get_elem?-lt s.shown s.sel_node_i v.selected in
        (toggle-selected s h (toggle_on-selected s current no_choice off h)).1
  ]

  update_menu_kept :
      (s : State) {n : MenuNode}
      → InView s
      → get_elem? s.shown s.sel_node_i ≡ some n
      → is_in n.id (shown_nodes tree s.conf s.show_all s.cur_menu) ≡ true
      → (t : State) × (update_menu tree s ≡ some t)
        × IsCurrent t
        × (index n.id t.shown ≡ some t.sel_node_i)
        × (t.sel_node_i - t.menu_scroll ≡ min t.sel_node_i (s.sel_node_i - s.menu_scroll))
  unfolding update_menu keep_row
  update_menu_kept s {n} v h there =
      let (k, e) = is_in-index n.id (shown_nodes tree s.conf s.show_all s.cur_menu) there in
      (
        record s {
          shown = shown_nodes tree s.conf s.show_all s.cur_menu;
          sel_node_i = k;
          menu_scroll = k + s.menu_scroll - s.sel_node_i;
        },
        rw (h, e),
        refl,
        e,
        omega arith,
      )

  update_menu_fails :
      (s : State) {n : MenuNode}
      → get_elem? s.shown s.sel_node_i ≡ some n
      → is_in n.id (shown_nodes tree s.conf s.show_all s.cur_menu) ≡ false
      → update_menu tree s ≡ none
  unfolding update_menu keep_row
  update_menu_fails s {n} h gone =
      rw (h, not-is_in n.id (shown_nodes tree s.conf s.show_all s.cur_menu) gone) refl

  -- For a selected entry that is drawn: if its node is still shown after a change of values, the
  -- update of the menu succeeds, the list is up to date, the node stays selected, and its row is
  -- the same unless there are too few entries above it; if the node is not shown any more, the
  -- update raises an exception.
  pub update_menu_lem :
      (s : State) {n : MenuNode}
      → InView s
      → get_elem? s.shown s.sel_node_i ≡ some n
      → (is_in n.id (shown_nodes tree s.conf s.show_all s.cur_menu) ≡ true
          → (t : State) × (update_menu tree s ≡ some t)
            × IsCurrent t
            × (index n.id t.shown ≡ some t.sel_node_i)
            × (t.sel_node_i - t.menu_scroll ≡ min t.sel_node_i (s.sel_node_i - s.menu_scroll)))
        × (is_in n.id (shown_nodes tree s.conf s.show_all s.cur_menu) ≡ false
            → update_menu tree s ≡ none)
  update_menu_lem s v h = (update_menu_kept s v h, update_menu_fails s h)

  enter_shown-IsCurrent :
      (m : MenuNode) (ns : List MenuNode) (s : State)
      → IsCurrent s
      → ns ≡ shown_nodes tree s.conf s.show_all m
      → IsCurrent (enter_shown tree m ns s).0
  unfolding enter_shown open_menu
  enter_shown-IsCurrent m [] s current e = current
  enter_shown-IsCurrent m (n ∷ ns) s current e =
      rw (select_selected-moved tree (open_menu tree m (n ∷ ns) s)) e

  pub enter_menu-IsCurrent :
      (m : MenuNode) (s : State) → IsCurrent s → IsCurrent (enter_menu tree m s).0
  unfolding enter_menu
  enter_menu-IsCurrent m s current = elim (Bool-cases m.is_menuconfig) [
    | inl e ↦ simp e (enter_shown-IsCurrent m (shown_nodes tree s.conf s.show_all m) s current refl)
    | inr e ↦ simp e current
  ]

  restore_row-IsCurrent :
      (rows : List ℕ) (s : State) → IsCurrent s → IsCurrent (restore_row tree rows s)
  unfolding restore_row center_vertically
  restore_row-IsCurrent [] s h = h
  restore_row-IsCurrent (_ ∷ _) s h = h

  pub leave_menu-IsCurrent : (s : State) → IsCurrent s → Ensures IsCurrent (leave_menu tree s)
  unfolding leave_menu leave_to
  leave_menu-IsCurrent s current =
      Ensures-if IsCurrent (s.cur_menu.id == tree.top_node.id) _ _
        (Ensures-some IsCurrent s current)
        (Ensures-bind IsCurrent (parent_menu tree s.cur_menu.id) _ λ p _.
          Ensures-bind IsCurrent (index s.cur_menu.id (shown_nodes tree s.conf s.show_all p)) _
            λ k _. Ensures-some IsCurrent _ (
              restore_row-IsCurrent s.parent_screen_rows
                (record s {
                  shown = shown_nodes tree s.conf s.show_all p;
                  sel_node_i = k;
                  cur_menu = p;
                })
                refl))
