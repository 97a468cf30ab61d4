-- ===== src/Guiconfig/Shown/Ordered.antt =====
-- The shown nodes of guiconfig.py in their order: each comes after its parent.
use mathlib.Core.Path.{subst}
use ve_root.Base.{
  ℕ, ◌<◌, ◌≤◌, ◌≡◌, ◌≢◌, refl, Bool, true, false, ◌||◌, List, [], ◌∷◌, ◌++◌, ◌⊎◌, inl, inr, arith,
}
use ve_root.Menuconfig.Nodes.{
  Chain, end, node, MenuNode, menu_node, nonempty, is_symbol, Tree, Conf,
}
use ve_root.Menuconfig.Shown.{visible}
use ve_root.Guiconfig.Shown.{
  full_round, full_nodes, menu_round, menu_nodes, size, shown_full_nodes, shown_menu_nodes,
}

-- The nearest of the parents.
abbrev pub IsFirst : (ℕ → Type 0) → List MenuNode → Type 0
IsFirst K [] = ⊥
IsFirst K (p ∷ ps) = K p.id

module _ (tree : Tree) where
  -- The links `parent` of the nodes of a chain lead to the node that the chain hangs at, and none
  -- of the nodes is the top menu.
  abbrev pub IsBelow : ℕ → Chain → Type 0
  IsBelow p end = Unit
  IsBelow p (node a l next) =
      IsFirst (λ q. q ≡ p) (tree.ancestors a.id)
      × IsBelow a.id l
      × IsBelow p next
      × (a.id ≢ tree.top_node.id)

  -- Each node has its parent among those known before, and less than `k` nodes below it.
  abbrev pub InOrder : (ℕ → Type 0) → ℕ → List MenuNode → Type 0
  InOrder K k [] = Unit
  InOrder K k (n ∷ ns) =
      IsFirst K (tree.ancestors n.id)
      × (IsBelow n.id n.list × (n.id ≢ tree.top_node.id))
      × (size n.list < k)
      × InOrder (λ j. K j ⊎ (j ≡ n.id)) k ns

  IsFirst-mono :
      (K L : ℕ → Type 0) (ps : List MenuNode) → ((j : ℕ) → K j → L j) → IsFirst K ps → IsFirst L ps
  IsFirst-mono K L [] f h = h
  IsFirst-mono K L (p ∷ ps) f h = f p.id h

  abbrev known_also :
      {K L : ℕ → Type 0} (i : ℕ) → ((j : ℕ) → K j → L j) → (j : ℕ) → K j ⊎ (j ≡ i) → L j ⊎ (j ≡ i)
  known_also i f j (inl h) = inl (f j h)
  known_also i f j (inr e) = inr e

  InOrder-mono :
      (K L : ℕ → Type 0) (k m : ℕ) (ns : List MenuNode)
      → ((j : ℕ) → K j → L j)
      → k ≤ m
      → InOrder K k ns
      → InOrder L m ns
  InOrder-mono K L k m [] f le h = tt
  InOrder-mono K L k m (n ∷ ns) f le h = (
    IsFirst-mono K L (tree.ancestors n.id) f h.0,
    h.1,
    (let less = h.2 in omega arith),
    InOrder-mono (λ j. K j ⊎ (j ≡ n.id)) (λ j. L j ⊎ (j ≡ n.id)) k m ns (known_also n.id f) le h.3,
  )

  InOrder-append :
      (K : ℕ → Type 0) (k : ℕ) (xs ys : List MenuNode)
      → InOrder K k xs
      → InOrder K k ys
      → InOrder K k (xs ++ ys)
  InOrder-append K k [] ys h g = g
  InOrder-append K k (n ∷ xs) ys h g = (
    h.0,
    h.1,
    h.2,
    InOrder-append (λ j. K j ⊎ (j ≡ n.id)) k xs ys h.3
        (InOrder-mono K (λ j. K j ⊎ (j ≡ n.id)) k k ys (λ j. inl) (omega arith) g),
  )

  -- A node with those of the lists below and after it, in a round of one of the loops.
  module _ (K : ℕ → Type 0) (k : ℕ) (n : MenuNode) where
    abbrev Later : ℕ → Type 0
    Later j = K j ⊎ (j ≡ n.id)

    abbrev Known : Type 0
    Known =
        IsFirst K (tree.ancestors n.id)
        × (IsBelow n.id n.list × (n.id ≢ tree.top_node.id))
        × (size n.list < k)

    with_rest : (rest : List MenuNode) → Known → InOrder K k rest → InOrder K k (n ∷ rest)
    with_rest rest h g = (h.0, h.1, h.2, InOrder-mono K Later k k rest (λ j. inl) (omega arith) g)

    with_both :
        (sub rest : List MenuNode)
        → Known
        → InOrder Later k sub
        → InOrder K k rest
        → InOrder K k (n ∷ (sub ++ rest))
    with_both sub rest h g r = (
      h.0,
      h.1,
      h.2,
      InOrder-append Later k sub rest g (InOrder-mono K Later k k rest (λ j. inl) (omega arith) r),
    )

    full_round-InOrder :
        (shows has_list symbol : Bool) (sub rest : List MenuNode)
        → Known
        → InOrder Later k sub
        → InOrder K k rest
        → InOrder K k (full_round shows has_list symbol n sub rest)
    unfolding full_round
    full_round-InOrder true true true sub rest h g r = with_both sub rest h g r
    full_round-InOrder true true false sub rest h g r = with_rest rest h r
    full_round-InOrder true false symbol sub rest h g r = with_rest rest h r
    full_round-InOrder false true true [] rest h g r = r
    full_round-InOrder false true true (m ∷ sub) rest h g r = with_both (m ∷ sub) rest h g r
    full_round-InOrder false true false sub rest h g r = r
    full_round-InOrder false false symbol sub rest h g r = r

    menu_round-InOrder :
        (shows has_list symbol entered : Bool) (sub rest : List MenuNode)
        → Known
        → InOrder Later k sub
        → InOrder K k rest
        → InOrder K k (menu_round shows has_list symbol entered n sub rest)
    unfolding menu_round
    menu_round-InOrder true true symbol false sub rest h g r = with_both sub rest h g r
    menu_round-InOrder true true symbol true sub rest h g r = with_rest rest h r
    menu_round-InOrder true false symbol entered sub rest h g r = with_rest rest h r
    menu_round-InOrder false true true entered [] rest h g r = r
    menu_round-InOrder false true true true (m ∷ sub) rest h g r = with_rest rest h r
    menu_round-InOrder false true true false (m ∷ sub) rest h g r = with_both (m ∷ sub) rest h g r
    menu_round-InOrder false true false entered sub rest h g r = r
    menu_round-InOrder false false symbol entered sub rest h g r = r

  IsFirst-known :
      (p : ℕ) (K : ℕ → Type 0) (ps : List MenuNode) → K p → IsFirst (λ q. q ≡ p) ps → IsFirst K ps
  IsFirst-known p K [] h f = f
  IsFirst-known p K (q ∷ ps) h f = rw f h

  module _ (conf : Conf) (show_all : Bool) where
    pub full_nodes-InOrder :
        (K : ℕ → Type 0) (k p : ℕ) (c : Chain)
        → K p
        → IsBelow p c
        → size c ≤ k
        → InOrder K k (full_nodes conf show_all c)
    unfolding full_nodes size
    full_nodes-InOrder K k p end kp b le = tt
    full_nodes-InOrder K k p (node a l next) kp b le =
        full_round-InOrder K k (menu_node a l) (visible conf a || show_all) (nonempty l)
          (is_symbol a.item) (full_nodes conf show_all l) (full_nodes conf show_all next)
          (IsFirst-known p K (tree.ancestors a.id) kp b.0, (b.1, b.3), omega arith)
          (full_nodes-InOrder (λ j. K j ⊎ (j ≡ a.id)) k a.id l (inr refl) b.1 (omega arith))
          (full_nodes-InOrder K k p next kp b.2 (omega arith))

    pub menu_nodes-InOrder :
        (K : ℕ → Type 0) (k p : ℕ) (c : Chain)
        → K p
        → IsBelow p c
        → size c ≤ k
        → InOrder K k (menu_nodes conf show_all c)
    unfolding menu_nodes size
    menu_nodes-InOrder K k p end kp b le = tt
    menu_nodes-InOrder K k p (node a l next) kp b le =
        menu_round-InOrder K k (menu_node a l) (visible conf a || show_all) (nonempty l)
          (is_symbol a.item) a.is_menuconfig (menu_nodes conf show_all l)
          (menu_nodes conf show_all next)
          (IsFirst-known p K (tree.ancestors a.id) kp b.0, (b.1, b.3), omega arith)
          (menu_nodes-InOrder (λ j. K j ⊎ (j ≡ a.id)) k a.id l (inr refl) b.1 (omega arith))
          (menu_nodes-InOrder K k p next kp b.2 (omega arith))

  -- The first node that a menu shows hangs at the menu.
  pub shown_full_nodes-IsFirst :
      (conf : Conf) (show_all : Bool) (m n : MenuNode) (ns : List MenuNode)
      → IsBelow m.id m.list
      → shown_full_nodes conf show_all m ≡ n ∷ ns
      → IsFirst (λ q. q ≡ m.id) (tree.ancestors n.id)
  unfolding shown_full_nodes
  shown_full_nodes-IsFirst conf show_all m n ns b e =
      let h = subst (InOrder (λ q. q ≡ m.id) (size m.list)) e (
        full_nodes-InOrder conf show_all (λ q. q ≡ m.id) (size m.list) m.id m.list refl b
          (omega arith)) in
      h.0

  -- Likewise in single-menu mode.
  pub shown_menu_nodes-IsFirst :
      (conf : Conf) (show_all : Bool) (m n : MenuNode) (ns : List MenuNode)
      → IsBelow m.id m.list
      → shown_menu_nodes conf show_all m ≡ n ∷ ns
      → IsFirst (λ q. q ≡ m.id) (tree.ancestors n.id)
  unfolding shown_menu_nodes
  shown_menu_nodes-IsFirst conf show_all m n ns b e =
      let h = subst (InOrder (λ q. q ≡ m.id) (size m.list)) e (
        menu_nodes-InOrder conf show_all (λ q. q ≡ m.id) (size m.list) m.id m.list refl b
          (omega arith)) in
      h.0
