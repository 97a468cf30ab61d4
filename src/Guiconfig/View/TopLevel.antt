-- ===== src/Guiconfig/View/TopLevel.antt =====
-- The items at the top level of the tree (guiconfig.py).
use ve_root.Base.{
  ℕ, ◌≡◌, ◌≢◌, ◌∙◌, ap, refl, Bool, true, List, [], ◌∷◌, Every, Bool-cases, inl, inr, ◌==◌, ==_iff,
}
use ve_root.Menuconfig.Nodes.{MenuNode, Tree, Conf}
use ve_root.Guiconfig.Shown.{shown_full_nodes, shown_menu_nodes}
use ve_root.Guiconfig.Shown.Ordered.{
  IsFirst, IsBelow, shown_full_nodes-IsFirst, shown_menu_nodes-IsFirst,
}
use ve_root.Guiconfig.View.{Place, top_level, Row, is_at, get_children, place_in}
use ve_root.Guiconfig.View.Attached.{is_attached, Fits, All}

first_inj : {i j : ℕ} {is js : List ℕ} → i ∷ is ≡ j ∷ js → i ≡ j
first_inj e = cc

cons_empty : {i : ℕ} {is : List ℕ} → i ∷ is ≡ [] → ⊥
cons_empty e = cc

pub children-attached :
    (p : Place) (rs : List Row) (i : ℕ) (is : List ℕ)
    → get_children p rs ≡ i ∷ is
    → is_attached i rs ≡ true
unfolding get_children is_attached
children-attached p [] i is e = cc
children-attached p (r ∷ rs) i is e = elim (Bool-cases (is_at p r.place)) [
  | inl at ↦
      let same : r.id ≡ i = first_inj (rw (get_children, at) at e) in
      rw ((==_iff r.id i).1 same) refl
  | inr off ↦ elim (Bool-cases (r.id == i)) [
    | inl same ↦ rw same refl
    | inr other ↦ rw other (children-attached p rs i is (rw (get_children, off) at e))
  ]
]

module _ (tree : Tree) where
  -- An item that is attached, and hangs at the top level.
  has_top :
      (top i : ℕ) (rs : List Row)
      → is_attached i rs ≡ true
      → Every (Fits tree top) rs
      → place_in top (tree.ancestors i) ≡ top_level
      → get_children top_level rs ≢ []
  unfolding get_children is_attached
  has_top top i [] a h e = cc
  has_top top i (r ∷ rs) a h e = elim (Bool-cases (r.id == i)) [
    | inl same ↦
        let here : r.place ≡ top_level =
          h.0 ∙ ap (λ j. place_in top (tree.ancestors j)) ((==_iff r.id i).0 same) ∙ e in
        λ empty. cons_empty (rw here at empty)
    | inr other ↦ elim (Bool-cases (is_at top_level r.place)) [
      | inl at ↦ λ empty. cons_empty (rw at at empty)
      | inr off ↦ λ empty. has_top top i rs (rw (is_attached, other) at a) h.1 e (rw off at empty)
    ]
  ]

  first-top_level :
      (top : ℕ) (ps : List MenuNode) → IsFirst (λ q. q ≡ top) ps → place_in top ps ≡ top_level
  unfolding place_in
  first-top_level top [] h = absurd h
  first-top_level top (p ∷ ps) h = rw ((==_iff p.id top).1 h) refl

  -- The nodes that full-tree mode shows have an item at the top level, if there are any.
  pub shows_top :
      (conf : Conf) (show_all : Bool) (rs : List Row) (ns : List MenuNode)
      → IsBelow tree tree.top_node.id tree.top_node.list
      → shown_full_nodes conf show_all tree.top_node ≡ ns
      → ns ≢ []
      → All ns rs
      → Every (Fits tree tree.top_node.id) rs
      → get_children top_level rs ≢ []
  shows_top conf show_all rs [] b e some_shown all fits = absurd (some_shown refl)
  shows_top conf show_all rs (n ∷ ns) b e some_shown all fits =
      has_top tree.top_node.id n.id rs all.0 fits (
        first-top_level tree.top_node.id (tree.ancestors n.id)
          (shown_full_nodes-IsFirst tree conf show_all tree.top_node n ns b e))

  -- Likewise the nodes that single-menu mode shows of a menu.
  pub shows_menu :
      (conf : Conf) (show_all : Bool) (m : MenuNode) (rs : List Row) (ns : List MenuNode)
      → IsBelow tree m.id m.list
      → shown_menu_nodes conf show_all m ≡ ns
      → ns ≢ []
      → All ns rs
      → Every (Fits tree m.id) rs
      → get_children top_level rs ≢ []
  shows_menu conf show_all m rs [] b e some_shown all fits = absurd (some_shown refl)
  shows_menu conf show_all m rs (n ∷ ns) b e some_shown all fits = has_top m.id n.id rs all.0 fits (
      first-top_level m.id (tree.ancestors n.id)
        (shown_menu_nodes-IsFirst tree conf show_all m n ns b e))
