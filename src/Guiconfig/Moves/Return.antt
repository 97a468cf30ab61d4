-- ===== src/Guiconfig/Moves/Return.antt =====
-- Entering a menu and leaving it again, in single-menu mode (guiconfig.py).
use ve_root.Base.{
  ℕ, ◌≡◌, ◌≢◌, refl, ◌∙◌, sym, ap, Bool, true, false, Option, some, List, [], ◌∷◌, Bool-cases, inl,
  inr, ◌==◌, ==_iff,
}
use ve_root.Menuconfig.Nodes.{MenuNode, Tree, Conf}
use ve_root.Menuconfig.Navigate.{parent_menu}
use ve_root.Guiconfig.Shown.{shown_menu_nodes}
use ve_root.Guiconfig.View.{Row, top_level, get_children, build_menu_tree, updated}
use ve_root.Guiconfig.View.TopLevel.{shows_menu}
use ve_root.Guiconfig.View.Updated.{updated-Linked}
use ve_root.Guiconfig.Window.{
  Window, waits, raises, exhausted, returns, Gui, ◌>>=◌, modify, set_rows, with_rows, select,
  update_tree,
}
use ve_root.Guiconfig.Window.Post.{IsMenu, IsMenuTree}
use ve_root.Guiconfig.Moves.{
  select_first, enter_menu, enter_menu_and_select_first, leave_to, leave_menu,
}

bind-returns :
    {A B : Type 0} (m : Gui A) (f : A → Gui B) (w w' : Window) (a : A)
    → m w ≡ returns a w'
    → (m >>= f) w ≡ f a w'
bind-returns m f w w' a e =
    ap
      (λ o. elim o [
        | waits ↦ waits
        | raises v ↦ raises v
        | exhausted ↦ exhausted
        | returns b v ↦ f b v
      ])
      e

some_inj : {rs rs' : List Row} → some rs ≡ some rs' → rs ≡ rs'
some_inj e = cc

module _ (tree : Tree) where
  -- An update in single-menu mode.
  update_single :
      (w : Window)
      → w.single_menu ≡ true
      → update_tree tree w
        ≡ returns tt (with_rows (build_menu_tree tree w.conf w.show_all w.cur_menu []) w)
  unfolding update_tree
  update_single w single = go w.single_menu single
    where
      go :
          (b : Bool)
          → b ≡ true
          → set_rows (updated tree w.conf w.show_all b w.cur_menu w.is_open) w
            ≡ returns tt (with_rows (build_menu_tree tree w.conf w.show_all w.cur_menu []) w)
      go true e = refl
      go false e = cc

  -- A menu with entries has an item at the top level of its tree.
  pub has_first :
      (conf : Conf) (show_all : Bool) (is_open : ℕ → Bool) (find : ℕ → Option MenuNode)
      (m : MenuNode)
      → IsMenuTree find tree
      → IsMenu find tree m
      → shown_menu_nodes conf show_all m ≢ []
      → get_children top_level (build_menu_tree tree conf show_all m []) ≢ []
  unfolding updated
  has_first conf show_all is_open find m t h some_shown =
      let (rs, e, linked, fits, all) =
        updated-Linked tree conf show_all true m is_open h.links t.top.links in
      let same : build_menu_tree tree conf show_all m [] ≡ rs = some_inj e in
      λ empty.
        shows_menu tree conf show_all m rs (shown_menu_nodes conf show_all m) h.links refl
          some_shown all fits (ap (get_children top_level) (sym same) ∙ empty)

  first_item :
      (is : List ℕ) (w : Window) → is ≢ [] → (i : ℕ) × (select_first is w ≡ returns tt (select i w))
  unfolding select_first
  first_item [] w some_item = absurd (some_item refl)
  first_item (i ∷ is) w some_item = (i, refl)

  leave_single :
      (v : Window) (m : MenuNode)
      → v.single_menu ≡ true
      → v.cur_menu.id ≢ tree.top_node.id
      → parent_menu tree v.cur_menu.id ≡ some m
      → leave_menu tree v
        ≡ returns tt (
            select v.cur_menu.id
              (with_rows (build_menu_tree tree v.conf v.show_all m []) (record v { cur_menu = m })))
  unfolding leave_menu leave_to enter_menu
  leave_single v m single other parent = elim (Bool-cases (v.cur_menu.id == tree.top_node.id)) [
    | inl e ↦ absurd (other ((==_iff v.cur_menu.id tree.top_node.id).0 e))
    | inr e ↦
        let step : leave_menu tree v ≡ leave_to tree (some m) v = simp (e, parent) refl in
        step
        ∙ bind-returns (enter_menu tree m) (λ _. modify (select v.cur_menu.id)) v
            (with_rows (build_menu_tree tree v.conf v.show_all m []) (record v { cur_menu = m })) tt
            (update_single (record v { cur_menu = m }) single)
  ]

  -- The window after a menu was entered and left.
  pub record Returned (w : Window) (n : MenuNode) (w' : Window) : Type 0 where
    pub rows : w'.rows ≡ w.rows
    pub cur_menu : w'.cur_menu ≡ w.cur_menu
    pub focus : w'.focus ≡ some n.id

  -- In single-menu mode, for a tree that is up to date, and a menu that shows something, is not
  -- the top menu and stands in the current menu: entering it and leaving it again succeeds, gives
  -- back the tree and the current menu, and selects the menu that was left.
  pub leave_menu-enter :
      (find : ℕ → Option MenuNode) (w : Window) (n : MenuNode)
      → IsMenuTree find tree
      → w.single_menu ≡ true
      → w.rows ≡ build_menu_tree tree w.conf w.show_all w.cur_menu []
      → IsMenu find tree n
      → n.id ≢ tree.top_node.id
      → parent_menu tree n.id ≡ some w.cur_menu
      → shown_menu_nodes w.conf w.show_all n ≢ []
      → (w' : Window) × ((enter_menu_and_select_first tree n >>= λ _. leave_menu tree) w
          ≡ returns tt w')
        × Returned w n w'
  unfolding enter_menu_and_select_first enter_menu leave_menu leave_to select
  leave_menu-enter find w n t single same h other parent some_shown =
      let w₁ =
        with_rows (build_menu_tree tree w.conf w.show_all n []) (record w { cur_menu = n }) in
      let (i, e₁) =
        first_item (get_children top_level w₁.rows) w₁
          (has_first w.conf w.show_all w.is_open find n t h some_shown) in
      let w₂ = select i w₁ in
      let entered : enter_menu_and_select_first tree n w ≡ returns tt w₂ =
        bind-returns (enter_menu tree n) (λ _ w'. select_first (get_children top_level w'.rows) w')
          w w₁ tt (update_single (record w { cur_menu = n }) single)
        ∙ e₁ in
      let w₃ =
        with_rows (build_menu_tree tree w.conf w.show_all w.cur_menu [])
          (record w₂ { cur_menu = w.cur_menu }) in
      let left : leave_menu tree w₂ ≡ returns tt (select n.id w₃) =
        leave_single w₂ w.cur_menu single other parent in
      (
        select n.id w₃,
        bind-returns (enter_menu_and_select_first tree n) (λ _. leave_menu tree) w w₂ tt entered
            ∙ left,
        record { rows = sym same; cur_menu = refl; focus = refl },
      )
