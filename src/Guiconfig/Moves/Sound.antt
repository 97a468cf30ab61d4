-- ===== src/Guiconfig/Moves/Sound.antt =====
-- The modes and the moves between menus in guiconfig.py keep the tree up to date.
use mathlib.Core.Path.{subst}
use ve_root.Base.{
  ℕ, ◌≡◌, refl, Bool, true, false, not, Option, none, some, List, [], ◌∷◌, Bool-cases, inl, inr,
  ◌==◌, ◌∙◌, sym,
}
use ve_root.Menuconfig.Nodes.{MenuNode, Tree, is_symbol}
use ve_root.Menuconfig.Navigate.{parent_menu, is_in}
use ve_root.Guiconfig.Shown.{shown_menu_nodes}
use ve_root.Guiconfig.Moves.Full.{StaysFull-Sound, populate-StaysFull, load_parents-Sound}
use ve_root.Guiconfig.View.{top_level, get_children}
use ve_root.Guiconfig.Scroll.{vis_loc_ref_item, keep_scroll}
use ve_root.Guiconfig.Window.{raises, Window, Gui, ◌>>=◌, modify, set_open, select, update_tree}
use ve_root.Guiconfig.Window.Post.{
  IsMenu, IsMenuTree, IsSound, Sound, Sound-bind, IsSafe, Sound-if, update_tree-Sound,
  with_ref_item-Sound,
}
use ve_root.Guiconfig.Moves.{
  set_show_all, set_single_menu, select_first, nothing_shown, do_showall, toggle_showall,
  enter_menu, enter_menu_and_select_first, leave_to, leave_menu, populate, go_to, update_unless,
  jump_to, enter_parent, do_tree_mode, toggle_tree_mode, jump_shown, jump_to_selected,
  tree_toggle_open, tree_open,
}

module _ (find : ℕ → Option MenuNode) (tree : Tree) (t : IsMenuTree find tree) where
  abbrev Safe : {A : Type 0} → Gui A → Type 0
  Safe = IsSafe find tree

  pub select-Sound : (i : ℕ) → Safe (modify (select i))
  unfolding select
  select-Sound i w s = record { menu = s.menu; saved = s.saved; current = s.current }

  pub set_open-Sound : (i : ℕ) (b : Bool) → Safe (modify (set_open i b))
  set_open-Sound i b w s = record { menu = s.menu; saved = s.saved; current = s.current }

  select_first-Sound : (is : List ℕ) → Safe (select_first is)
  unfolding select_first
  select_first-Sound [] w s = s
  select_first-Sound (i ∷ is) w s = select-Sound i w s

  enter_menu-Sound : (m : MenuNode) → IsMenu find tree m → Safe (enter_menu tree m)
  unfolding enter_menu
  enter_menu-Sound m h w s = update_tree-Sound find tree t (record w { cur_menu = m }) h s.saved

  pub enter_menu_and_select_first-Sound :
      (m : MenuNode) → IsMenu find tree m → Safe (enter_menu_and_select_first tree m)
  unfolding enter_menu_and_select_first
  enter_menu_and_select_first-Sound m h w s =
      Sound-bind find tree (enter_menu tree m)
        (λ _ w'. select_first (get_children top_level w'.rows) w') w (enter_menu-Sound m h w s)
        (λ _ w'. select_first-Sound (get_children top_level w'.rows) w')

  leave_to-Sound :
      (o : Option MenuNode)
      → ((m : MenuNode) → o ≡ some m → IsMenu find tree m)
      → Safe (leave_to tree o)
  unfolding leave_to
  leave_to-Sound none h w s = s
  leave_to-Sound (some m) h w s =
      Sound-bind find tree (enter_menu tree m) (λ _. modify (select w.cur_menu.id)) w
        (enter_menu-Sound m (h m refl) w s) (λ _. select-Sound w.cur_menu.id)

  pub leave_menu-Sound : Safe (leave_menu tree)
  unfolding leave_menu
  leave_menu-Sound w s =
      Sound-if find tree (w.cur_menu.id == tree.top_node.id) _ _ s
        (leave_to-Sound (parent_menu tree w.cur_menu.id) (t.parents w.cur_menu.id) w s)

  keep_scroll-Sound :
      (ref : ℕ) (f : Gui (Unit {0})) (w : Window)
      → IsSound find tree w
      → Sound find tree (f w)
      → Sound find tree (keep_scroll ref f w)
  unfolding keep_scroll
  keep_scroll-Sound ref f w s h = go (vis_loc_ref_item w.rows ref)
    where
      go : (o : Option ℕ) → Sound find tree (elim o [ none ↦ raises w | some _ ↦ f w ])
      go none = s
      go (some k) = h

  -- `_do_showall()` updates the tree, leaves it, or raises before it updates it.
  pub toggle_showall-Sound : (ref : ℕ) → Safe (toggle_showall tree ref)
  unfolding toggle_showall do_showall nothing_shown
  toggle_showall-Sound ref w s =
      let v = set_show_all (not w.show_all) w in
      Sound-if find tree (nothing_shown tree v) _ _
        record { menu = s.menu; saved = s.saved; current = s.current }
        (with_ref_item-Sound find tree (keep_scroll ref (update_tree tree)) v s.menu s.saved (
          keep_scroll-Sound ref (update_tree tree) v
            record { menu = s.menu; saved = s.saved; current = s.current }
            (update_tree-Sound find tree t v s.menu s.saved)))

  -- In single-menu mode, a jump updates the tree, and needs no tree that is up to date.
  single_jump :
      (n m : MenuNode) (v : Window)
      → parent_menu tree n.id ≡ some m
      → IsMenu find tree v.cur_menu
      → (v.conf_changed ≡ false → v.conf ≡ v.on_disk)
      → v.single_menu ≡ true
      → Sound find tree (jump_to tree n v)
  unfolding jump_to go_to enter_parent enter_menu
  single_jump n m v e h saved single =
      subst (λ b. Sound find tree ((go_to tree b n >>= λ _. modify (select n.id)) v)) (sym single)
        (Sound-bind find tree (go_to tree true n) (λ _. modify (select n.id)) v
          (entered (parent_menu tree n.id) e) (λ _. select-Sound n.id))
    where
      entered : (o : Option MenuNode) → o ≡ some m → Sound find tree (enter_parent tree o v)
      entered none e' = cc
      entered (some m') e' =
          update_tree-Sound find tree t (record v { cur_menu = m' })
            (t.parents n.id m' (e ∙ sym e')) saved

  jump_to-Sound : (n m : MenuNode) → parent_menu tree n.id ≡ some m → Safe (jump_to tree n)
  unfolding jump_to
  jump_to-Sound n m e w s = elim (Bool-cases w.single_menu) [
    | inl single ↦ single_jump n m w e s.menu s.saved single
    | inr full ↦
        subst (λ b. Sound find tree ((go_to tree b n >>= λ _. modify (select n.id)) w)) (sym full)
          (Sound-bind find tree (go_to tree false n) (λ _. modify (select n.id)) w
            (load_parents-Sound find tree t n w (s, full)) (λ _. select-Sound n.id))
  ]

  update_and_jump :
      (n m : MenuNode) (v : Window)
      → parent_menu tree n.id ≡ some m
      → IsMenu find tree v.cur_menu
      → (v.conf_changed ≡ false → v.conf ≡ v.on_disk)
      → Sound find tree ((update_unless tree v.single_menu >>= λ _. jump_to tree n) v)
  unfolding update_unless
  update_and_jump n m v e h saved = elim (Bool-cases v.single_menu) [
    | inl single ↦
        subst (λ b. Sound find tree ((update_unless tree b >>= λ _. jump_to tree n) v)) (sym single)
          (single_jump n m v e h saved single)
    | inr full ↦
        subst (λ b. Sound find tree ((update_unless tree b >>= λ _. jump_to tree n) v)) (sym full)
          (Sound-bind find tree (update_tree tree) (λ _. jump_to tree n) v
            (update_tree-Sound find tree t v h saved) (λ _. jump_to-Sound n m e))
  ]

  pub toggle_tree_mode-Sound :
      (n m : MenuNode) → parent_menu tree n.id ≡ some m → Safe (toggle_tree_mode tree n)
  unfolding toggle_tree_mode do_tree_mode
  toggle_tree_mode-Sound n m e w s =
      with_ref_item-Sound find tree (do_tree_mode tree n) (set_single_menu (not w.single_menu) w)
        s.menu s.saved
        (update_and_jump n m (set_single_menu (not w.single_menu) w) e s.menu s.saved)

  jump_shown-Sound :
      (o : Option MenuNode) (n : MenuNode) → parent_menu tree n.id ≡ o → Safe (jump_shown tree o n)
  unfolding jump_shown
  jump_shown-Sound none n e w s = s
  jump_shown-Sound (some m) n e w s =
      Sound-if find tree (is_in n.id (shown_menu_nodes w.conf w.show_all m)) _ _
        (jump_to-Sound n m e w s) (update_and_jump n m (set_show_all true w) e s.menu s.saved)

  pub jump_to_selected-Sound : (n : MenuNode) → Safe (jump_to_selected tree n)
  unfolding jump_to_selected
  jump_to_selected-Sound n = jump_shown-Sound (parent_menu tree n.id) n refl

  pub tree_open-Sound : (n : MenuNode) → Safe (tree_open tree n)
  unfolding tree_open
  tree_open-Sound n w s = elim (Bool-cases w.single_menu) [
    | inl single ↦ simp single s
    | inr full ↦ simp full (
        StaysFull-Sound find tree t (populate tree n w)
          (populate-StaysFull find tree t n w (s, full)))
  ]

  populate-Sound :
      (n : MenuNode) (w : Window)
      → IsSound find tree w
      → (w.single_menu ≡ true → is_symbol n.item ≡ true)
      → Sound find tree (populate tree n w)
  unfolding populate
  populate-Sound n w s h = elim (Bool-cases w.single_menu) [
    | inl single ↦ rw (h single) s
    | inr full ↦
        StaysFull-Sound find tree t (populate tree n w)
          (populate-StaysFull find tree t n w (s, full))
  ]

  -- A node that is no symbol is populated in full-tree mode only.
  pub tree_toggle_open-Sound :
      (n : MenuNode) (w : Window)
      → IsSound find tree w
      → (w.single_menu ≡ true → is_symbol n.item ≡ true)
      → Sound find tree (tree_toggle_open tree n w)
  unfolding tree_toggle_open
  tree_toggle_open-Sound n w s h =
      Sound-if find tree (w.is_open n.id) _ _ (set_open-Sound n.id false w s) (
        Sound-bind find tree (populate tree n) (λ _. modify (set_open n.id true)) w
          (populate-Sound n w s h) (λ _. set_open-Sound n.id true))
