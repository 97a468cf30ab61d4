-- ===== src/Guiconfig/View/Ends.antt =====
-- `_build_full_tree()` comes to its end (guiconfig.py).
use ve_root.Base.{
  ℕ, zero, suc, ◌<◌, ◌≡◌, refl, Bool, not, ◌&&◌, Option, some, List, [], ◌∷◌, Every, arith,
  Bool-cases, inl, inr,
}
use ve_root.Menuconfig.Nodes.{MenuNode, nonempty, is_symbol, Tree, Conf}
use ve_root.Guiconfig.Shown.{size, shown_full_nodes, shown_menu_nodes}
use ve_root.Guiconfig.Shown.Sized.{IsSmaller, shown_full_nodes-IsSmaller}
use ve_root.Guiconfig.View.{
  Row, add_to_tree, add_dummy, add_below, each, build_full_tree, build_full,
}

abbrev pub Ends : Option (List Row) → Type 0
Ends o = (rs : List Row) × (o ≡ some rs)

module _ (tree : Tree) (conf : Conf) (show_all : Bool) where
  abbrev Build : Type 0
  Build = MenuNode → List Row → Option (List Row)

  -- The recursive call comes to its end on nodes with less than `k` nodes below them.
  abbrev EndsBelow : ℕ → Build → Type 0
  EndsBelow k build = (n : MenuNode) (rs : List Row) → IsSmaller k n → Ends (build n rs)

  add_below-Ends :
      (k : ℕ) (build : Build) (opened : Bool) (n : MenuNode) (rs : List Row)
      → EndsBelow k build
      → IsSmaller k n
      → Ends (add_below tree conf show_all build opened n rs)
  unfolding add_below
  add_below-Ends k build opened n rs ih less =
      elim (Bool-cases (nonempty n.list && not (is_symbol n.item))) [
        | inr e ↦ rw e (rs, refl)
        | inl e ↦ elim (Bool-cases opened) [
          | inl o ↦ rw (e, o) (ih n rs less)
          | inr o ↦
              rw (e, o) (add_dummy tree conf show_all (shown_menu_nodes conf show_all n) rs, refl)
        ]
      ]

  each-Ends :
      (k : ℕ) (build : Build) (is_open : ℕ → Bool) (ns : List MenuNode) (rs : List Row)
      → EndsBelow k build
      → Every (IsSmaller k) ns
      → Ends (each tree conf show_all build is_open ns rs)
  unfolding each
  each-Ends k build is_open [] rs ih h = (rs, refl)
  each-Ends k build is_open (n ∷ ns) rs ih h =
      let (rs', e) =
        add_below-Ends k build (is_open n.id) n
          (add_to_tree tree conf show_all tree.top_node.id n rs) ih h.0 in
      let (rs'', e') = each-Ends k build is_open ns rs' ih h.1 in (rs'', rw e e')

  build_full_tree-Ends :
      (fuel : ℕ) (is_open : ℕ → Bool) (m : MenuNode) (rs : List Row)
      → size m.list < fuel
      → Ends (build_full_tree tree conf show_all fuel is_open m rs)
  unfolding build_full_tree
  build_full_tree-Ends zero is_open m rs enough = absurd (omega arith)
  build_full_tree-Ends (suc fuel) is_open m rs enough =
      each-Ends (size m.list) (build_full_tree tree conf show_all fuel is_open) is_open
        (shown_full_nodes conf show_all m) rs
        (λ n rs' less. build_full_tree-Ends fuel is_open n rs' (omega (arith, less, enough)))
        (shown_full_nodes-IsSmaller conf show_all m)

  -- The fuel of `build_full` is enough for every menu.
  pub build_full-Ends :
      (is_open : ℕ → Bool) (m : MenuNode) (rs : List Row)
      → Ends (build_full tree conf show_all is_open m rs)
  unfolding build_full
  build_full-Ends is_open m rs = build_full_tree-Ends (suc (size m.list)) is_open m rs (omega arith)
