-- ===== src/Guiconfig/Main/Start.antt =====
-- The start of guiconfig.py: the window has an entry, which is selected.
use ve_root.Base.{
  ℕ, ◌≡◌, ◌≢◌, ◌∙◌, sym, ap, refl, Bool, true, false, Option, none, some, List, [], ◌∷◌,
  if◌then◌else◌, get_elem?,
}
use ve_root.Menuconfig.Nodes.{Text, MenuNode, Tree, Conf}
use ve_root.Menuconfig.Session.{World}
use ve_root.Guiconfig.Shown.{shown_menu_nodes, shown_full_nodes}
use ve_root.Guiconfig.Shown.Empty.{shown_menu_nodes-[]}
use ve_root.Guiconfig.View.TopLevel.{children-attached, shows_top}
use ve_root.Guiconfig.Shown.Probe.{shown_menu_nodes-Probes}
use ve_root.Guiconfig.View.{top_level, Row, get_children, updated}
use ve_root.Guiconfig.View.Attached.{is_attached}
use ve_root.Guiconfig.View.Updated.{updated-Linked}
use ve_root.Guiconfig.Window.{
  Window, Outcome, ◌>>=◌, pure, set_rows, with_rows, select, update_tree,
}
use ve_root.Guiconfig.Window.Post.{Post, IsMenu, IsMenuTree, IsSound}
use ve_root.Guiconfig.Files.{is_empty, is_empty_iff}
use ve_root.Guiconfig.Moves.{select_first}
use ve_root.Guiconfig.Main.{first_window, top_is_empty, show_window, start}

module _ (world : World) (find : ℕ → Option MenuNode) (tree : Tree) (t : IsMenuTree find tree) where
  -- The window is sound, with the focus on an item.
  abbrev pub IsReady : Window → Type 0
  IsReady w = IsSound find tree w × ((i : ℕ) × (w.focus ≡ some i) × (is_attached i w.rows ≡ true))

  -- The main loop is entered with a window that is ready, or there is nothing to show in either
  -- mode. Nothing is raised.
  abbrev pub Starts : Outcome Bool → Type 0
  Starts =
      Post
        (λ entered w.
          if entered
          then IsReady w
          else ((show_all : Bool) → shown_menu_nodes w.conf show_all tree.top_node ≡ []))
        (λ _. ⊥)

  select-Starts :
      (is : List ℕ) (w : Window)
      → get_children top_level w.rows ≡ is
      → is ≢ []
      → IsSound find tree w
      → Starts ((select_first is >>= λ _. pure true) w)
  unfolding select_first select
  select-Starts [] w e some_item s = absurd (some_item refl)
  select-Starts (i ∷ is) w e some_item s = (
    record { menu = s.menu; saved = s.saved; current = s.current },
    (i, refl, children-attached top_level w.rows i is e),
  )

  no_rows : {rs : List Row} → none ≡ some rs → ⊥
  no_rows e = cc

  same_rows : {rs rs' : List Row} → some rs' ≡ some rs → rs' ≡ rs
  same_rows e = cc

  -- The end of the start, with the rows of the tree.
  rows-Starts :
      (o : Option (List Row)) (rs : List Row) (w : Window)
      → o ≡ some rs
      → get_children top_level rs ≢ []
      → IsMenu find tree w.cur_menu
      → (w.conf_changed ≡ false → w.conf ≡ w.on_disk)
      → w.single_menu ≡ false
      → Starts (
          (set_rows o >>= λ _.
          (λ w. select_first (get_children top_level w.rows) w) >>= λ _. pure true)
            w)
  unfolding set_rows
  rows-Starts none rs w e c m saved full = absurd (no_rows e)
  rows-Starts (some rs') rs w e c m saved full =
      select-Starts (get_children top_level rs') (with_rows rs' w) refl
        (λ empty. c (ap (get_children top_level) (sym (same_rows e)) ∙ empty))
        record { menu = m; saved = saved; current = λ single. absurd cc }

  -- What single-menu mode shows has its first entry in full-tree mode.
  both_shown :
      (conf : Conf) (show_all : Bool)
      → shown_menu_nodes conf show_all tree.top_node ≢ []
      → shown_full_nodes conf show_all tree.top_node ≢ []
  both_shown conf show_all shown =
      heads _ _ (shown_menu_nodes-Probes conf show_all tree.top_node t.top.menus).0 shown
    where
      heads : (xs ys : List MenuNode) → get_elem? xs 0 ≡ get_elem? ys 0 → xs ≢ [] → ys ≢ []
      heads [] ys e h = absurd (h refl)
      heads (x ∷ xs) [] e h = cc
      heads (x ∷ xs) (y ∷ ys) e h = λ empty. cc

  -- The window with entries in the top menu.
  show_window-Starts :
      (w : Window)
      → w.cur_menu ≡ tree.top_node
      → (w.conf_changed ≡ false → w.conf ≡ w.on_disk)
      → w.single_menu ≡ false
      → shown_menu_nodes w.conf w.show_all tree.top_node ≢ []
      → Starts (show_window world tree w)
  unfolding show_window update_tree
  show_window-Starts w at saved full shown =
      let menu : IsMenu find tree w.cur_menu = rw at t.top in
      let (rs, e, linked, fits, all) =
        updated-Linked tree w.conf w.show_all false w.cur_menu w.is_open menu.links t.top.links in
      rows-Starts (updated tree w.conf w.show_all w.single_menu w.cur_menu w.is_open) rs w
        (rw full e)
        (shows_top tree w.conf w.show_all rs (shown_full_nodes w.conf w.show_all tree.top_node)
          t.top.links refl (both_shown w.conf w.show_all shown) all fits)
        menu saved full

  Starts-if :
      (b : Bool) (o p : Outcome Bool)
      → (b ≡ true → Starts o)
      → (b ≡ false → Starts p)
      → Starts (if b then o else p)
  Starts-if true o p h k = h refl
  Starts-if false o p h k = k refl

  not_empty : (ns : List MenuNode) → is_empty ns ≡ false → ns ≢ []
  unfolding is_empty
  not_empty [] e = cc
  not_empty (n ∷ ns) e = λ empty. cc

  -- Whatever `load_config()` gives, in a menu tree with consistent links: either there is nothing
  -- to show, in either mode, or the main loop is entered with a sound window and the focus on an
  -- item of its tree. Nothing is raised, and no loop runs out of fuel.
  pub start-Starts :
      (exists : Bool) (loaded : Conf) (filename minconf_filename : Text)
      → Starts (start world tree (first_window world tree exists loaded filename minconf_filename))
  unfolding start first_window top_is_empty
  start-Starts exists loaded filename minconf_filename =
      let w = first_window world tree exists loaded filename minconf_filename in
      Starts-if (is_empty (shown_menu_nodes loaded false tree.top_node)) _ _
        (λ hidden.
          Starts-if (is_empty (shown_menu_nodes loaded true tree.top_node)) _ _
            (λ empty. shown_menu_nodes-[] loaded tree.top_node (is_empty_iff _ empty))
            (λ shown.
              show_window-Starts (record w { show_all = true }) refl (λ _. refl) refl
                (not_empty _ shown)))
        (λ shown. show_window-Starts w refl (λ _. refl) refl (not_empty _ shown))
