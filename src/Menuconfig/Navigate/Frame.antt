-- ===== src/Menuconfig/Navigate/Frame.antt =====
-- What leaving, updating and jumping keep: the values, and whether they were changed
-- (menuconfig.py).
use ve_root.Base.{
  ℕ, ◌≡◌, refl, Bool, true, false, not, ◌&&◌, Option, none, some, List, [], ◌∷◌, get_elem?, Ensures,
  Ensures-bind, Ensures-some, Ensures-if, Bool-cases, inl, inr, ◌==◌, ◌∙◌, ap,
}
use ve_root.Menuconfig.Nodes.{MenuNode, Tree, Chain, node}
use ve_root.Menuconfig.Shown.{shown_nodes}
use ve_root.Menuconfig.State.{State, center_vertically}
use ve_root.Menuconfig.State.InView.{InView}
use ve_root.Menuconfig.Navigate.{
  index, parent_menu, restore_row, leave_to, leave_menu, update_menu, toggle_to, toggle_show_all,
  finish_jump, show_target, land, jump_from, jump_to, jumps_into, enter_menu, enter_shown,
  open_menu, select_selected_choice_sym, is_in,
}
use ve_root.Menuconfig.Navigate.Keep.{leave_menu-InView, update_menu-InView}
use ve_root.Menuconfig.Navigate.Jump.{jump_to-InView}
use ve_root.Menuconfig.Navigate.Return.{select_selected-moved}

-- The values are the same, and so is the mark that they were changed.
pub record SameValues (s t : State) : Type 0 where
  pub conf : t.conf ≡ s.conf
  pub changed : t.conf_changed ≡ s.conf_changed

abbrev pub Keeps : State → State → Type 0
Keeps s t = InView t × SameValues s t

Ensures-both {ℓ} :
    {A : Type ℓ} (P Q : A → Type 0) (o : Option A)
    → Ensures P o
    → Ensures Q o
    → Ensures (λ a. P a × Q a) o
Ensures-both P Q o h k a e = (h a e, k a e)

module _ (tree : Tree) where
  restore_row-SameValues : (rows : List ℕ) (s : State) → SameValues s (restore_row tree rows s)
  unfolding restore_row center_vertically
  restore_row-SameValues [] s = record { conf = refl; changed = refl }
  restore_row-SameValues (_ ∷ _) s = record { conf = refl; changed = refl }

  leave_menu-SameValues : (s : State) → Ensures (SameValues s) (leave_menu tree s)
  unfolding leave_menu leave_to
  leave_menu-SameValues s =
      Ensures-if (SameValues s) (s.cur_menu.id == tree.top_node.id) _ _
        (Ensures-some (SameValues s) s (record { conf = refl; changed = refl }))
        (Ensures-bind (SameValues s) (parent_menu tree s.cur_menu.id) _ λ p _.
          Ensures-bind (SameValues s) (index s.cur_menu.id (shown_nodes tree s.conf s.show_all p)) _
            λ k _. Ensures-some (SameValues s) _ (
              let h = restore_row-SameValues s.parent_screen_rows (record s {
                shown = shown_nodes tree s.conf s.show_all p;
                sel_node_i = k;
                cur_menu = p;
              }) in
              record { conf = h.conf; changed = h.changed }))

  pub leave_menu-Keeps : (s : State) → InView s → Ensures (Keeps s) (leave_menu tree s)
  leave_menu-Keeps s v =
      Ensures-both InView (SameValues s) (leave_menu tree s) (leave_menu-InView tree s v)
        (leave_menu-SameValues s)

  update_menu-SameValues : (s : State) → Ensures (SameValues s) (update_menu tree s)
  unfolding update_menu
  update_menu-SameValues s = Ensures-bind (SameValues s) (get_elem? s.shown s.sel_node_i) _ λ n _.
      Ensures-bind (SameValues s) (index n.id (shown_nodes tree s.conf s.show_all s.cur_menu)) _
        λ k _. Ensures-some (SameValues s) _ (record { conf = refl; changed = refl })

  pub update_menu-Keeps : (s : State) → InView s → Ensures (Keeps s) (update_menu tree s)
  update_menu-Keeps s v =
      Ensures-both InView (SameValues s) (update_menu tree s) (update_menu-InView tree s v)
        (update_menu-SameValues s)

  select_selected-SameValues : (s : State) → SameValues s (select_selected_choice_sym tree s)
  select_selected-SameValues s =
      let e = select_selected-moved tree s in
      record { conf = ap (λ (t : State). t.conf) e; changed = ap (λ (t : State). t.conf_changed) e }

  enter_shown-SameValues :
      (m : MenuNode) (ns : List MenuNode) (s : State) → SameValues s (enter_shown tree m ns s).0
  unfolding enter_shown open_menu
  enter_shown-SameValues m [] s = record { conf = refl; changed = refl }
  enter_shown-SameValues m (n ∷ ns) s =
      let h = select_selected-SameValues (open_menu tree m (n ∷ ns) s) in
      record { conf = h.conf; changed = h.changed }

  pub enter_menu-SameValues : (m : MenuNode) (s : State) → SameValues s (enter_menu tree m s).0
  unfolding enter_menu
  enter_menu-SameValues m s = elim (Bool-cases m.is_menuconfig) [
    | inl e ↦ simp e (enter_shown-SameValues m (shown_nodes tree s.conf s.show_all m) s)
    | inr e ↦ simp e (record { conf = refl; changed = refl })
  ]

  toggle_to-SameValues :
      (o : Option ℕ) (new : List MenuNode) (s : State) → SameValues s (toggle_to tree o new s)
  unfolding toggle_to
  toggle_to-SameValues none new s = record { conf = refl; changed = refl }
  toggle_to-SameValues (some k) new s = record { conf = refl; changed = refl }

  pub toggle-SameValues : (s : State) → SameValues s (toggle_show_all tree s)
  unfolding toggle_show_all
  toggle-SameValues s = toggle_to-SameValues _ _ s

  finish_jump-SameValues :
      (jump_into forced : Bool) (s : State) → SameValues s (finish_jump tree jump_into forced s)
  unfolding finish_jump center_vertically
  finish_jump-SameValues true true s =
      let t = toggle-SameValues s in
      let h = select_selected-SameValues (center_vertically (toggle_show_all tree s)) in
      record { conf = h.conf ∙ t.conf; changed = h.changed ∙ t.changed }
  finish_jump-SameValues true false s =
      let h = select_selected-SameValues (center_vertically s) in
      record { conf = h.conf; changed = h.changed }
  finish_jump-SameValues false _ s = record { conf = refl; changed = refl }

  show_target-SameValues : (i : ℕ) (s : State) → SameValues s (show_target tree i s)
  unfolding show_target
  show_target-SameValues i s =
      elim (Bool-cases (is_in i (shown_nodes tree s.conf s.show_all s.cur_menu))) [
        | inl e ↦ rw e (record { conf = refl; changed = refl })
        | inr e ↦ rw e (record { conf = refl; changed = refl })
      ]

  land-SameValues :
      (jump_into : Bool) (i : ℕ) (s : State) → Ensures (SameValues s) (land tree jump_into i s)
  unfolding land
  land-SameValues jump_into i s =
      let s₁ = show_target tree i s in
      let h = show_target-SameValues i s in
      Ensures-bind (SameValues s) (index i s₁.shown) _ λ k e. Ensures-some (SameValues s) _ (
        let t =
          finish_jump-SameValues jump_into (not s.show_all && s₁.show_all)
            (record s₁ { sel_node_i = k }) in
        record { conf = t.conf ∙ h.conf; changed = t.changed ∙ h.changed })

  jump_from-SameValues :
      (n : MenuNode) (b : Bool) (c : Chain) (s : State)
      → Ensures (SameValues s) (jump_from tree n b c s)
  unfolding jump_from
  jump_from-SameValues n true (node a l _) s t e =
      let h = land-SameValues true a.id (record s { parent_screen_rows = []; cur_menu = n }) t e in
      record { conf = h.conf; changed = h.changed }
  jump_from-SameValues n _ _ s t e =
      Ensures-bind (SameValues s) (parent_menu tree n.id) _
        (λ m _ t e.
          let h =
            land-SameValues false n.id (record s { parent_screen_rows = []; cur_menu = m }) t e in
          record { conf = h.conf; changed = h.changed })
        t e

  pub jump_to-Keeps : (n : MenuNode) (s : State) → InView s → Ensures (Keeps s) (jump_to tree n s)
  unfolding jump_to
  jump_to-Keeps n s v =
      Ensures-both InView (SameValues s) (jump_to tree n s) (jump_to-InView tree n s v)
        (jump_from-SameValues n (jumps_into n n.list) n.list s)
