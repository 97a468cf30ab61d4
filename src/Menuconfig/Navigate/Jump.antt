-- ===== src/Menuconfig/Navigate/Jump.antt =====
-- `_jump_to()` (menuconfig.py).
use ve_root.Base.{
  ℕ, ◌<◌, ◌≡◌, refl, Bool, true, false, not, ◌&&◌, ◌||◌, Option, none, some, List, [], length,
  Bool-cases, inl, inr, arith, Ensures, Ensures-some, Ensures-bind,
}
use ve_root.Menuconfig.Nodes.{MenuNode, Tree, Chain, node}
use ve_root.Menuconfig.Shown.{shown_nodes}
use ve_root.Menuconfig.State.{State, center_vertically}
use ve_root.Menuconfig.State.InView.{InView, center_vertically-InView}
use ve_root.Menuconfig.Navigate.{
  is_in, index, closest, toggle_to, toggle_show_all, show_target, finish_jump, land, jump_from,
  jump_to, jumps_into, parent_menu,
}
use ve_root.Menuconfig.Navigate.Index.{index-lt, is_in-index}
use ve_root.Menuconfig.Navigate.Keep.{select_selected-InView, closest-lt}
use ve_root.Menuconfig.Navigate.Current.{IsCurrent}

module _ (tree : Tree) where
  -- There is a selected entry; the scroll may be that of another menu.
  abbrev HasSelected : State → Type 0
  HasSelected s = (s.sel_node_i < length s.shown) × (0 < s.height)

  toggle_to-HasSelected :
      (o : Option ℕ) (new : List MenuNode) (s : State)
      → HasSelected s
      → ((k : ℕ) → o ≡ some k → k < length new)
      → HasSelected (toggle_to tree o new s)
  unfolding toggle_to
  toggle_to-HasSelected none new s v h = v
  toggle_to-HasSelected (some k) new s v h = (h k refl, v.1)

  toggle-HasSelected : (s : State) → HasSelected s → HasSelected (toggle_show_all tree s)
  unfolding toggle_show_all
  toggle-HasSelected s v =
      let new = shown_nodes tree s.conf (not s.show_all) s.cur_menu in
      toggle_to-HasSelected (closest tree s new) new s v (closest-lt tree s new)

  center-HasSelected : (s : State) → HasSelected s → InView (center_vertically s)
  center-HasSelected s h = center_vertically-InView s h.0 h.1

  finish_jump-InView :
      (jump_into forced : Bool) (s : State)
      → HasSelected s
      → InView (finish_jump tree jump_into forced s)
  unfolding finish_jump
  finish_jump-InView true true s h =
      select_selected-InView tree _ (center-HasSelected _ (toggle-HasSelected s h))
  finish_jump-InView true false s h = select_selected-InView tree _ (center-HasSelected s h)
  finish_jump-InView false _ s h = center-HasSelected s h

  show_target-height : (i : ℕ) (s : State) → (show_target tree i s).height ≡ s.height
  unfolding show_target
  show_target-height i s = ground arith

  land-InView :
      (jump_into : Bool) (i : ℕ) (s : State)
      → 0 < s.height
      → Ensures InView (land tree jump_into i s)
  unfolding land
  land-InView jump_into i s p =
      let s₁ = show_target tree i s in
      Ensures-bind InView (index i s₁.shown) _ λ k e. Ensures-some InView _ (
        finish_jump-InView jump_into (not s.show_all && s₁.show_all) (record s₁ { sel_node_i = k })
          (index-lt i s₁.shown e, omega (arith, show_target-height i s)))

  jump_from-InView :
      (n : MenuNode) (b : Bool) (c : Chain) (s : State)
      → 0 < s.height
      → Ensures InView (jump_from tree n b c s)
  unfolding jump_from
  jump_from-InView n true (node a l _) s p =
      land-InView true a.id (record s { parent_screen_rows = []; cur_menu = n }) p
  jump_from-InView n _ _ s p =
      Ensures-bind InView (parent_menu tree n.id) _
        λ m _. land-InView false n.id (record s { parent_screen_rows = []; cur_menu = m }) p

  -- Wherever `_jump_to()` lands, the selected entry exists and is drawn.
  pub jump_to-InView : (n : MenuNode) (s : State) → InView s → Ensures InView (jump_to tree n s)
  unfolding jump_to
  jump_to-InView n s v = jump_from-InView n (jumps_into n n.list) n.list s (omega arith)

  module _ (n p : MenuNode) (s : State) (not_into : jumps_into n n.list ≡ false)
      (parent : parent_menu tree n.id ≡ some p)
      (there : is_in n.id (shown_nodes tree s.conf true p) ≡ true) where
    pub record LandsAt (t : State) : Type 0 where
      pub returns : jump_to tree n s ≡ some t
      pub menu : t.cur_menu ≡ p
      pub rows : t.parent_screen_rows ≡ []
      pub current : IsCurrent tree t
      pub selected : index n.id t.shown ≡ some t.sel_node_i
      pub mode :
          t.show_all ≡ (s.show_all || not (is_in n.id (shown_nodes tree s.conf s.show_all p)))

    landing : ℕ → Bool → State
    landing k all = center_vertically (record s {
      parent_screen_rows = [];
      cur_menu = p;
      show_all = all;
      shown = shown_nodes tree s.conf all p;
      sel_node_i = k;
    })

    landing_shown :
        (k : ℕ)
        → is_in n.id (shown_nodes tree s.conf s.show_all p) ≡ true
        → index n.id (shown_nodes tree s.conf s.show_all p) ≡ some k
        → LandsAt (landing k s.show_all)
    unfolding jump_to jump_from land show_target finish_jump landing center_vertically
    landing_shown k shows e = record {
      returns = rw (not_into, parent, shows, e);
      menu = refl;
      rows = refl;
      current = refl;
      selected = e;
      mode = rw shows (ground arith);
    }

    landing_hidden :
        (k : ℕ)
        → is_in n.id (shown_nodes tree s.conf s.show_all p) ≡ false
        → index n.id (shown_nodes tree s.conf true p) ≡ some k
        → LandsAt (landing k true)
    unfolding jump_to jump_from land show_target finish_jump landing center_vertically
    landing_hidden k hidden e = record {
      returns = rw (not_into, parent, hidden, e);
      menu = refl;
      rows = refl;
      current = refl;
      selected = e;
      mode = rw hidden (ground arith);
    }

    -- A jump to a node that is not entered lands in its parent menu with the node selected and the
    -- remembered rows cleared, if the parent menu shows the node in show-all mode; that mode is
    -- turned on exactly if the node is not shown without it.
    pub jump_to_parent : (t : State) × LandsAt t
    jump_to_parent = elim (Bool-cases (is_in n.id (shown_nodes tree s.conf s.show_all p))) [
      | inl shows ↦
          let (k, e) = is_in-index n.id (shown_nodes tree s.conf s.show_all p) shows in
          (landing k s.show_all, landing_shown k shows e)
      | inr hidden ↦
          let (k, e) = is_in-index n.id (shown_nodes tree s.conf true p) there in
          (landing k true, landing_hidden k hidden e)
    ]
