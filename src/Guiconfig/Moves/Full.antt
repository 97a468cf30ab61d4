-- ===== src/Guiconfig/Moves/Full.antt =====
-- In full-tree mode, the menus of guiconfig.py are populated as they are needed.
use mathlib.Core.List.{reverse}
use ve_root.Base.{
  ℕ, ◌≡◌, Bool, true, false, Option, none, some, List, [], ◌∷◌, Bool-cases, inl, inr, if◌then◌else◌,
}
use ve_root.Menuconfig.Nodes.{MenuNode, Tree, is_symbol}
use ve_root.Guiconfig.View.{Row, build_full}
use ve_root.Guiconfig.View.Ends.{Ends, build_full-Ends}
use ve_root.Guiconfig.Window.{
  Window, Outcome, waits, raises, exhausted, returns, Gui, ◌>>=◌, set_rows,
}
use ve_root.Guiconfig.Window.Post.{Post, IsMenuTree, IsSound, Sound}
use ve_root.Guiconfig.Moves.{populate, populate_all, load_from, inner_parents, load_parents}

module _ (find : ℕ → Option MenuNode) (tree : Tree) (t : IsMenuTree find tree) where
  -- In full-tree mode, which stays, menus may be populated.
  abbrev pub FullSound : Window → Type 0
  FullSound w = IsSound find tree w × (w.single_menu ≡ false)

  abbrev pub StaysFull : Outcome (Unit {0}) → Type 0
  StaysFull = Post (λ _. FullSound) FullSound

  set_rows-StaysFull :
      (o : Option (List Row)) (w : Window) → FullSound w → Ends o → StaysFull (set_rows o w)
  unfolding set_rows
  set_rows-StaysFull none w s h = let e = h.1 in cc
  set_rows-StaysFull (some rows) w s h = (
    record { menu = s.0.menu; saved = s.0.saved; current = λ single. let full = s.1 in absurd cc },
    s.1,
  )

  StaysFull-bind :
      (m f : Gui (Unit {0})) (w : Window)
      → StaysFull (m w)
      → ((w' : Window) → FullSound w' → StaysFull (f w'))
      → StaysFull ((m >>= λ _. f) w)
  StaysFull-bind m f w h k = go (m w) h
    where
      go :
          (o : Outcome (Unit {0}))
          → StaysFull o
          → StaysFull (elim o [
            | waits ↦ waits
            | raises w' ↦ raises w'
            | exhausted ↦ exhausted
            | returns a w' ↦ f w'
          ])
      go waits h = tt
      go (raises w) h = h
      go exhausted h = h
      go (returns a w) h = k w h

  pub StaysFull-Sound : (o : Outcome (Unit {0})) → StaysFull o → Sound find tree o
  StaysFull-Sound waits h = tt
  StaysFull-Sound (raises w) h = h.0
  StaysFull-Sound exhausted h = h
  StaysFull-Sound (returns a w) h = h.0

  pub populate-StaysFull : (n : MenuNode) (w : Window) → FullSound w → StaysFull (populate tree n w)
  unfolding populate
  populate-StaysFull n w s = elim (Bool-cases (is_symbol n.item)) [
    | inl e ↦ simp e s
    | inr e ↦ simp e (
        set_rows-StaysFull (build_full tree w.conf w.show_all w.is_open n w.rows) w s
          (build_full-Ends tree w.conf w.show_all w.is_open n w.rows))
  ]

  populate_all-StaysFull :
      (ns : List MenuNode) (w : Window) → FullSound w → StaysFull (populate_all tree ns w)
  unfolding populate_all
  populate_all-StaysFull [] w s = s
  populate_all-StaysFull (n ∷ ns) w s =
      StaysFull-bind (populate tree n) (populate_all tree ns) w (populate-StaysFull n w s)
        (populate_all-StaysFull ns)

  load_from-StaysFull :
      (ns : List MenuNode) (w : Window) → FullSound w → StaysFull (load_from tree ns w)
  unfolding load_from
  load_from-StaysFull [] w s = s
  load_from-StaysFull (n ∷ ns) w s =
      Post-if (w.is_open n.id) _ _ (load_from-StaysFull ns w s)
        (populate_all-StaysFull (n ∷ ns) w s)
    where
      Post-if :
          (b : Bool) (o p : Outcome (Unit {0}))
          → StaysFull o
          → StaysFull p
          → StaysFull (if b then o else p)
      Post-if true o p h k = h
      Post-if false o p h k = k

  pub load_parents-Sound :
      (n : MenuNode) (w : Window) → FullSound w → Sound find tree (load_parents tree n w)
  unfolding load_parents
  load_parents-Sound n w s =
      StaysFull-Sound (load_parents tree n w)
        (load_from-StaysFull (reverse (inner_parents tree (tree.ancestors n.id))) w s)
