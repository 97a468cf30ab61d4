-- ===== src/Guiconfig/Window/Post.antt =====
-- What holds of the window of guiconfig.py after a callback, also after one that raised.
use ve_root.Base.{
  ℕ, ◌≡◌, refl, ◌∙◌, Bool, true, false, Option, none, some, List, [], ◌∷◌, inl, inr, ◌⊎◌,
  if◌then◌else◌,
}
use ve_root.Menuconfig.Nodes.{MenuNode, Tree, Conf}
use ve_root.Menuconfig.Navigate.{parent_menu}
use ve_root.Guiconfig.Shown.Probe.{HasMenus}
use ve_root.Guiconfig.Shown.Ordered.{IsBelow}
use ve_root.Guiconfig.View.{Row, build_menu_tree, updated}
use ve_root.Guiconfig.View.Updated.{updated-Linked}
use ve_root.Guiconfig.View.Implicit.{IsKnown}
use ve_root.Guiconfig.Window.{
  Window, Outcome, waits, raises, exhausted, returns, Gui, ◌>>=◌, update_tree, set_rows,
  with_ref_item,
}

-- What holds when a callback returns, and the window that it leaves otherwise.
abbrev pub Post {ℓ} : {A : Type ℓ} → (A → Window → Type 0) → (Window → Type 0) → Outcome A → Type 0
Post P R waits = Unit
Post P R (raises w) = R w
Post P R exhausted = ⊥
Post P R (returns a w) = P a w

module _ (find : ℕ → Option MenuNode) (tree : Tree) where
  -- A menu whose nodes have consistent links.
  pub record IsMenu (m : MenuNode) : Type 0 where
    pub menus : HasMenus m.list
    pub known : IsKnown find tree m.list
    pub links : IsBelow tree m.id m.list

  -- The menu tree: its top, its nodes, and the menus that these stand in.
  pub record IsMenuTree : Type 0 where
    pub top : IsMenu tree.top_node
    pub found : (i : ℕ) (n : MenuNode) → find i ≡ some n → (n.id ≡ i) × IsMenu n
    pub parents : (i : ℕ) (m : MenuNode) → parent_menu tree i ≡ some m → IsMenu m
    pub has_parent :
        (i : ℕ) (n : MenuNode) → find i ≡ some n → (m : MenuNode) × (parent_menu tree n.id ≡ some m)

  -- In single-menu mode the tree is the one of the values, with or without show-all mode, or has no
  -- items, and with no unsaved changes the values are those of the file.
  pub record IsSound (w : Window) : Type 0 where
    pub menu : IsMenu w.cur_menu
    pub saved : w.conf_changed ≡ false → w.conf ≡ w.on_disk
    pub current :
        w.single_menu ≡ true
        → ((b : Bool) × (w.rows ≡ build_menu_tree tree w.conf b w.cur_menu [])) ⊎ (w.rows ≡ [])

  -- A callback from a sound window, whatever else it returns.
  abbrev pub Sound : {A : Type 0} → Outcome A → Type 0
  Sound {A} = Post (λ (a : A). IsSound) IsSound

  abbrev pub IsSafe : {A : Type 0} → Gui A → Type 0
  IsSafe m = (w : Window) → IsSound w → Sound (m w)

  pub Sound-bind :
      {A B : Type 0} (m : Gui A) (f : A → Gui B) (w : Window)
      → Sound (m w)
      → ((a : A) → IsSafe (f a))
      → Sound ((m >>= f) w)
  Sound-bind {A} {B} m f w h k = go (m w) h
    where
      go :
          (o : Outcome A)
          → Sound o
          → Sound (elim o [
            | waits ↦ waits
            | raises w' ↦ raises w'
            | exhausted ↦ exhausted
            | returns a w' ↦ f a w'
          ])
      go waits h = tt
      go (raises w) h = h
      go exhausted h = h
      go (returns a w) h = k a w h

  pub Sound-if :
      {A : Type 0} (b : Bool) (o p : Outcome A) → Sound o → Sound p → Sound (if b then o else p)
  Sound-if true o p h k = h
  Sound-if false o p h k = k

  set_rows-Sound :
      (o : Option (List Row)) (w : Window)
      → IsMenu w.cur_menu
      → (w.conf_changed ≡ false → w.conf ≡ w.on_disk)
      → (rows : List Row) → o ≡ some rows
      → (w.single_menu ≡ true → rows ≡ build_menu_tree tree w.conf w.show_all w.cur_menu [])
      → Sound (set_rows o w)
  unfolding set_rows
  set_rows-Sound none w m s rows e c = cc
  set_rows-Sound (some rows') w m s rows e c =
      let same : rows' ≡ rows = cc in
      record { menu = m; saved = s; current = λ single. inl (w.show_all, same ∙ c single) }

  single_rows :
      (conf : Conf) (show_all single : Bool) (m : MenuNode) (is_open : ℕ → Bool) (rows : List Row)
      → updated tree conf show_all single m is_open ≡ some rows
      → single ≡ true
      → rows ≡ build_menu_tree tree conf show_all m []
  unfolding updated
  single_rows conf show_all true m is_open rows e s = cc
  single_rows conf show_all false m is_open rows e s = cc

  -- `_update_tree()` makes the tree the one of the values.
  pub update_tree-Sound :
      IsMenuTree
      → (w : Window) → IsMenu w.cur_menu
      → (w.conf_changed ≡ false → w.conf ≡ w.on_disk)
      → Sound (update_tree tree w)
  unfolding update_tree
  update_tree-Sound t w m s =
      let (rows, e, l, fits, all) =
        updated-Linked tree w.conf w.show_all w.single_menu w.cur_menu w.is_open m.links
          t.top.links in
      set_rows-Sound (updated tree w.conf w.show_all w.single_menu w.cur_menu w.is_open) w m s rows
        e (single_rows w.conf w.show_all w.single_menu w.cur_menu w.is_open rows e)

  -- What looks for an item on the screen first raises in a tree without items, which it leaves.
  pub with_ref_item-Sound :
      (f : Gui (Unit {0})) (w : Window)
      → IsMenu w.cur_menu
      → (w.conf_changed ≡ false → w.conf ≡ w.on_disk)
      → Sound (f w)
      → Sound (with_ref_item f w)
  unfolding with_ref_item
  with_ref_item-Sound f w m s h = go w.rows refl
    where
      go : (rows : List Row) → w.rows ≡ rows → Sound (with_ref_item f w)
      go [] e = simp (with_ref_item, e) record { menu = m; saved = s; current = λ _. inr e }
      go (r ∷ rs) e = simp (with_ref_item, e) h
