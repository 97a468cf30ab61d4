-- ===== src/Guiconfig/View/Updated.antt =====
-- `_update_tree()` comes to its end, and gives a tree that hangs together (guiconfig.py).
use ve_root.Base.{
  ℕ, zero, suc, ◌<◌, ◌≡◌, ◌≢◌, refl, Bool, true, false, not, ◌&&◌, Option, some, List, [], ◌∷◌, ◌⊎◌,
  inl, inr, Every, Bool-cases, arith,
}
use ve_root.Menuconfig.Nodes.{MenuNode, nonempty, is_symbol, Tree, Conf}
use ve_root.Guiconfig.Shown.{shown_full_nodes, shown_menu_nodes, size, full_nodes, menu_nodes}
use ve_root.Guiconfig.Shown.Ordered.{
  IsFirst, IsBelow, InOrder, full_nodes-InOrder, menu_nodes-InOrder,
}
use ve_root.Guiconfig.View.Attached.{
  is_attached, Grows, Linked, move-Grows, move-attaches, move-Linked, Places, place_in-Hangs,
  place_of-Hangs, Fits, move-Fits, place_of-Fits, Built, All,
}
use ve_root.Guiconfig.View.{
  Row, place_in, place_of, add_to_tree, add_all, build_menu_tree, add_dummy, add_below, each,
  build_full_tree, build_full, updated,
}

module _ (tree : Tree) (conf : Conf) (show_all : Bool) where
  abbrev BuiltAll : ℕ → List MenuNode → List Row → List Row → Type 0
  BuiltAll top ns rs rs' = Built tree top rs rs' × All ns rs'

  add_to_tree-Built :
      (K : ℕ → Type 0) (top : ℕ) (n : MenuNode) (rs : List Row)
      → ((j : ℕ) → K j → Places top rs j)
      → IsFirst K (tree.ancestors n.id)
      → Linked rs
      → Built tree top rs (add_to_tree tree conf show_all top n rs)
  unfolding add_to_tree
  add_to_tree-Built K top n rs f h l = (
    move-Linked _ n.id (place_in top (tree.ancestors n.id)) rs
        (place_in-Hangs K top (tree.ancestors n.id) rs f h) l,
    move-Grows _ n.id (place_in top (tree.ancestors n.id)) rs,
    move-Fits tree top _ n.id (place_in top (tree.ancestors n.id)) rs refl,
  )

  abbrev Next : (ℕ → Type 0) → MenuNode → ℕ → Type 0
  Next K n j = K j ⊎ (j ≡ n.id)

  -- The next node has more places.
  Places-Next :
      (K : ℕ → Type 0) (top : ℕ) (n : MenuNode) (rs rs' : List Row)
      → ((j : ℕ) → K j → Places top rs j)
      → Grows rs rs'
      → is_attached n.id rs' ≡ true
      → (j : ℕ) → Next K n j
      → Places top rs' j
  Places-Next K top n rs rs' f g a j (inl h) = elim (f j h) [
    | inl e ↦ inl e
    | inr h' ↦ inr (g j h')
  ]
  Places-Next K top n rs rs' f g a j (inr e) = inr (rw e a)

  attaches :
      (top : ℕ) (n : MenuNode) (rs : List Row)
      → is_attached n.id (add_to_tree tree conf show_all top n rs) ≡ true
  unfolding add_to_tree
  attaches top n rs = move-attaches _ n.id (place_in top (tree.ancestors n.id)) rs

  add_all-Built :
      (K : ℕ → Type 0) (k top : ℕ) (ns : List MenuNode) (rs : List Row)
      → ((j : ℕ) → K j → Places top rs j)
      → InOrder tree K k ns
      → Linked rs
      → BuiltAll top ns rs (add_all tree conf show_all top ns rs)
  unfolding add_all
  add_all-Built K k top [] rs f h l = ((l, λ i a. a, λ g. g), tt)
  add_all-Built K k top (n ∷ ns) rs f h l =
      let b = add_to_tree-Built K top n rs f h.0 l in
      let rest =
        add_all-Built (Next K n) k top ns (add_to_tree tree conf show_all top n rs)
          (Places-Next K top n rs (add_to_tree tree conf show_all top n rs) f b.1
            (attaches top n rs))
          h.3 b.0 in
      (
        (rest.0.0, λ i a. rest.0.1 i (b.1 i a), λ g. rest.0.2 (b.2 g)),
        (rest.0.1 n.id (attaches top n rs), rest.1),
      )

  build_menu_tree-Built :
      (m : MenuNode) (rs : List Row)
      → IsBelow tree m.id m.list
      → Linked rs
      → BuiltAll m.id
          (shown_menu_nodes conf show_all m)
          rs
          (build_menu_tree tree conf show_all m rs)
  unfolding build_menu_tree shown_menu_nodes
  build_menu_tree-Built m rs b l =
      add_all-Built (λ j. j ≡ m.id) (size m.list) m.id (menu_nodes conf show_all m.list) rs
        (λ j e. inl e)
        (menu_nodes-InOrder tree conf show_all (λ j. j ≡ m.id) (size m.list) m.id m.list refl b
          (omega arith))
        l

  add_dummy-Built :
      (top i k : ℕ) (ns : List MenuNode) (rs : List Row)
      → i ≢ top
      → is_attached i rs ≡ true
      → InOrder tree (λ j. j ≡ i) k ns
      → Linked rs
      → Built tree top rs (add_dummy tree conf show_all ns rs)
  unfolding add_dummy
  add_dummy-Built top i k [] rs other a h l = (l, λ j b. b, λ g. g)
  add_dummy-Built top i k (n ∷ ns) rs other a h l = (
    move-Linked _ n.id (place_of (tree.ancestors n.id)) rs
        (place_of-Hangs i (tree.ancestors n.id) rs a h.0) l,
    move-Grows _ n.id (place_of (tree.ancestors n.id)) rs,
    move-Fits tree top _ n.id (place_of (tree.ancestors n.id)) rs
        (place_of-Fits tree top i (tree.ancestors n.id) other h.0),
  )

  -- A result, which is no lack of fuel.
  abbrev pub Builds : List Row → Option (List Row) → Type 0
  Builds rs o = (rs' : List Row) × (o ≡ some rs') × Built tree tree.top_node.id rs rs'

  -- The recursive call on a node that is attached, with less than `k` nodes below it.
  abbrev BuildsBelow : ℕ → (MenuNode → List Row → Option (List Row)) → Type 0
  BuildsBelow k build =
      (n : MenuNode) (rs : List Row)
      → size n.list < k
      → is_attached n.id rs ≡ true
      → IsBelow tree n.id n.list
      → Linked rs
      → Builds rs (build n rs)

  add_below-Builds :
      (k : ℕ) (build : MenuNode → List Row → Option (List Row)) (opened : Bool) (n : MenuNode)
      (rs : List Row)
      → BuildsBelow k build
      → size n.list < k
      → is_attached n.id rs ≡ true
      → (IsBelow tree n.id n.list × (n.id ≢ tree.top_node.id))
      → Linked rs
      → Builds rs (add_below tree conf show_all build opened n rs)
  unfolding add_below shown_menu_nodes
  add_below-Builds k build opened n rs ih less a b l =
      elim (Bool-cases (nonempty n.list && not (is_symbol n.item))) [
        | inr e ↦ rw e (rs, refl, (l, λ i h. h, λ g. g))
        | inl e ↦ elim (Bool-cases opened) [
          | inl o ↦ rw (e, o) (ih n rs less a b.0 l)
          | inr o ↦
              rw (e, o)
                (
                  add_dummy tree conf show_all (menu_nodes conf show_all n.list) rs,
                  refl,
                  add_dummy-Built tree.top_node.id n.id (size n.list)
                      (menu_nodes conf show_all n.list) rs b.1 a
                      (menu_nodes-InOrder tree conf show_all (λ j. j ≡ n.id) (size n.list) n.id
                        n.list refl b.0 (omega arith))
                      l,
                )
        ]
      ]

  abbrev BuildsAll : List MenuNode → List Row → Option (List Row) → Type 0
  BuildsAll ns rs o = (rs' : List Row) × (o ≡ some rs') × BuiltAll tree.top_node.id ns rs rs'

  each-Builds :
      (K : ℕ → Type 0) (k : ℕ) (build : MenuNode → List Row → Option (List Row))
      (is_open : ℕ → Bool) (ns : List MenuNode) (rs : List Row)
      → BuildsBelow k build
      → ((j : ℕ) → K j → Places tree.top_node.id rs j)
      → InOrder tree K k ns
      → Linked rs
      → BuildsAll ns rs (each tree conf show_all build is_open ns rs)
  unfolding each
  each-Builds K k build is_open [] rs ih f h l = (rs, refl, ((l, λ i a. a, λ g. g), tt))
  each-Builds K k build is_open (n ∷ ns) rs ih f h l =
      let top = tree.top_node.id in
      let rs' = add_to_tree tree conf show_all top n rs in
      let b = add_to_tree-Built K top n rs f h.0 l in
      let (rs'', e, b') =
        add_below-Builds k build (is_open n.id) n rs' ih h.2 (attaches top n rs) h.1 b.0 in
      let (rs₃, e', (b'', all)) =
        each-Builds (Next K n) k build is_open ns rs'' ih
          (Places-Next K top n rs rs'' f (λ i a. b'.1 i (b.1 i a)) (b'.1 n.id (attaches top n rs)))
          h.3 b'.0 in
      (
        rs₃,
        rw e e',
        (
          (b''.0, λ i a. b''.1 i (b'.1 i (b.1 i a)), λ g. b''.2 (b'.2 (b.2 g))),
          (b''.1 n.id (b'.1 n.id (attaches top n rs)), all),
        ),
      )

  build_full_tree-Builds :
      (fuel : ℕ) (is_open : ℕ → Bool) (m : MenuNode) (rs : List Row)
      → size m.list < fuel
      → Places tree.top_node.id rs m.id
      → IsBelow tree m.id m.list
      → Linked rs
      → BuildsAll
          (shown_full_nodes conf show_all m)
          rs
          (build_full_tree tree conf show_all fuel is_open m rs)
  unfolding build_full_tree shown_full_nodes
  build_full_tree-Builds zero is_open m rs enough at b l = absurd (omega arith)
  build_full_tree-Builds (suc fuel) is_open m rs enough at b l =
      each-Builds (λ j. j ≡ m.id) fuel (build_full_tree tree conf show_all fuel is_open) is_open
        (full_nodes conf show_all m.list) rs
        (λ n rs' less a b' l'.
          let (rs'', e, (built, all)) =
            build_full_tree-Builds fuel is_open n rs' less (inr a) b' l' in
          (rs'', e, built))
        (λ j e. rw e at)
        (full_nodes-InOrder tree conf show_all (λ j. j ≡ m.id) fuel m.id m.list refl b
          (omega arith))
        l

  -- The nodes that the tree shows at least: those of the current menu, or those of the top menu.
  abbrev pub shown_at : (single_menu : Bool) → MenuNode → List MenuNode
  shown_at true cur_menu = shown_menu_nodes conf show_all cur_menu
  shown_at false cur_menu = shown_full_nodes conf show_all tree.top_node

  -- The menu whose entries are at the top level.
  abbrev pub top_at : (single_menu : Bool) → MenuNode → ℕ
  top_at true cur_menu = cur_menu.id
  top_at false cur_menu = tree.top_node.id

  -- If the links of the nodes below the current menu and below the top menu lead to their parents:
  -- in both tree modes and whatever items are open, `_update_tree()` comes to its end, every item
  -- of the tree then hangs where the parent of its node is, which is the top level or an item of
  -- the tree, and all nodes that the current menu (in full-tree mode: the top menu) shows are
  -- items of the tree.
  pub updated-Linked :
      (single_menu : Bool) (cur_menu : MenuNode) (is_open : ℕ → Bool)
      → IsBelow tree cur_menu.id cur_menu.list
      → IsBelow tree tree.top_node.id tree.top_node.list
      → (rs : List Row) × (updated tree conf show_all single_menu cur_menu is_open ≡ some rs)
        × Linked rs
        × Every (Fits tree (top_at single_menu cur_menu)) rs
        × All (shown_at single_menu cur_menu) rs
  unfolding updated build_full
  updated-Linked true cur_menu is_open b t =
      let (built, all) = build_menu_tree-Built cur_menu [] b tt in
      (build_menu_tree tree conf show_all cur_menu [], refl, built.0, built.2 tt, all)
  updated-Linked false cur_menu is_open b t =
      let (rs, e, (built, all)) =
        build_full_tree-Builds (suc (size tree.top_node.list)) is_open tree.top_node []
          (omega arith) (inl refl) t tt in
      (rs, e, built.0, built.2 tt, all)
