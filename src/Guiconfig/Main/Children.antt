-- ===== src/Guiconfig/Main/Children.antt =====
-- Which items have children in single-menu mode (guiconfig.py).
use ve_root.Base.{Bool, ℕ, ◌≡◌, true, some, List, [], ◌∷◌, Every, ==_iff, Bool-cases, inl, inr, ◌⊎◌}
use ve_root.Menuconfig.Nodes.{MenuNode, Tree, is_symbol}
use ve_root.Guiconfig.View.{
  Place, top_level, under, nowhere, Row, is_at, get_children, build_menu_tree,
}
use ve_root.Guiconfig.View.Implicit.{IsImplicit, build_menu_tree-Implicit}
use ve_root.Guiconfig.Window.{Window}
use ve_root.Guiconfig.Window.Post.{IsMenuTree, IsSound}
use ve_root.Guiconfig.Main.{find, has_children}

module _ (nodes : List MenuNode) (tree : Tree) where
  abbrev Implicit : Place → Type 0
  Implicit = IsImplicit (find nodes) tree

  at-Implicit : (p : Place) (i : ℕ) → is_at (under i) p ≡ true → Implicit p → Implicit (under i)
  at-Implicit top_level i e h = cc
  at-Implicit (under j) i e h = let same : i ≡ j = (==_iff i j).0 e in rw same h
  at-Implicit nowhere i e h = cc

  children-Implicit :
      (i : ℕ) (rs : List Row)
      → Every (λ (r : Row). Implicit r.place) rs
      → has_children i rs ≡ true
      → Implicit (under i)
  unfolding has_children get_children
  children-Implicit i [] h e = cc
  children-Implicit i (r ∷ rs) h e = elim (Bool-cases (is_at (under i) r.place)) [
    | inl at ↦ at-Implicit r.place i at h.0
    | inr off ↦ children-Implicit i rs h.1 (rw (has_children, get_children, off) at e)
  ]

  -- In single-menu mode, an item with children is a symbol's.
  pub has_children-Symbol :
      IsMenuTree (find nodes) tree
      → (w : Window) (i : ℕ) (n : MenuNode) → IsSound (find nodes) tree w
      → find nodes i ≡ some n
      → has_children i w.rows ≡ true
      → w.single_menu ≡ true
      → is_symbol n.item ≡ true
  has_children-Symbol t w i n s e h single =
      let (m, e', symbol) = children-Implicit i w.rows (implicit (s.current single)) h in
      let same : n ≡ m = cc in rw same symbol
    where
      implicit :
          ((b : Bool) × (w.rows ≡ build_menu_tree tree w.conf b w.cur_menu [])) ⊎ (w.rows ≡ [])
          → Every (λ (r : Row). Implicit r.place) w.rows
      implicit (inl (b, same)) = rw same (
          build_menu_tree-Implicit (find nodes) tree w.conf b w.cur_menu s.menu.menus s.menu.known
            s.menu.links)
      implicit (inr empty) = rw empty tt
