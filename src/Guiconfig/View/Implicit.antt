-- ===== src/Guiconfig/View/Implicit.antt =====
-- In single-menu mode, only symbols have items below them (guiconfig.py).
use ve_root.Base.{
  ℕ, ◌≡◌, refl, Bool, true, ◌==◌, Option, some, List, [], ◌∷◌, ◌⊎◌, inl, inr, Every, Every-append,
  Bool-cases, arith,
}
use ve_root.Menuconfig.Nodes.{Chain, end, node, MenuNode, menu_node, is_symbol, Tree, Conf}
use ve_root.Guiconfig.Shown.{shown_menu_nodes, menu_nodes}
use ve_root.Guiconfig.Shown.Probe.{HasMenus}
use ve_root.Guiconfig.Shown.Every.{Covers, menu_nodes-Every}
use ve_root.Guiconfig.Shown.Ordered.{IsFirst, IsBelow}
use ve_root.Guiconfig.View.{
  Place, top_level, under, nowhere, Row, detach, move, place_in, add_to_tree, add_all,
  build_menu_tree,
}
use ve_root.Guiconfig.View.Attached.{Every-detach}

module _ (find : ℕ → Option MenuNode) (tree : Tree) where
  -- The nodes of the chain are found by their identities.
  abbrev pub IsKnown : Chain → Type 0
  IsKnown end = Unit
  IsKnown (node a l next) = (find a.id ≡ some (menu_node a l)) × IsKnown l × IsKnown next

  abbrev pub IsImplicit : Place → Type 0
  IsImplicit top_level = Unit
  IsImplicit (under p) = (n : MenuNode) × (find p ≡ some n) × (is_symbol n.item ≡ true)
  IsImplicit nowhere = ⊥

  -- What an entry of the menu hangs at: the menu itself or a symbol.
  abbrev Fits : ℕ → ℕ → Type 0
  Fits top p = (p ≡ top) ⊎ ((n : MenuNode) × (find p ≡ some n) × (is_symbol n.item ≡ true))

  abbrev Placed : ℕ → MenuNode → Type 0
  Placed top n = IsImplicit (place_in top (tree.ancestors n.id))

  place_in-IsImplicit :
      (top p : ℕ) (ps : List MenuNode)
      → Fits top p
      → IsFirst (λ q. q ≡ p) ps
      → IsImplicit (place_in top ps)
  unfolding place_in
  place_in-IsImplicit top p [] f h = absurd h
  place_in-IsImplicit top p (q ∷ ps) f h = elim (Bool-cases (q.id == top)) [
    | inl e ↦ rw e tt
    | inr e ↦
        rw e (elim f [ inl e' ↦ absurd (ground (arith, h, e, e')) | inr s ↦ (s.0, rw h s.1, s.2) ])
  ]

  chain-Placed :
      (top p : ℕ) (c : Chain)
      → Fits top p
      → HasMenus c
      → IsKnown c
      → IsBelow tree p c
      → Covers (Placed top) c
  chain-Placed top p end f h k b = tt
  chain-Placed top p (node a l next) f h k b = (
    place_in-IsImplicit top p (tree.ancestors a.id) f b.0,
    λ has flat. chain-Placed top a.id l (inr (menu_node a l, k.0, h.0 has flat)) h.1 k.1 b.1,
    chain-Placed top p next f h.2 k.2 b.2,
  )

  module _ (conf : Conf) (show_all : Bool) where
    abbrev RowImplicit : Row → Type 0
    RowImplicit r = IsImplicit r.place

    add_all-Implicit :
        (top : ℕ) (ns : List MenuNode) (rs : List Row)
        → Every (Placed top) ns
        → Every RowImplicit rs
        → Every RowImplicit (add_all tree conf show_all top ns rs)
    unfolding add_all add_to_tree move
    add_all-Implicit top [] rs h g = g
    add_all-Implicit top (n ∷ ns) rs h g =
        add_all-Implicit top ns (add_to_tree tree conf show_all top n rs) h.1 (
          Every-append RowImplicit (detach n.id rs) _ (Every-detach RowImplicit n.id rs g)
            (h.0, tt))

    -- If the nodes below the menu have their parents as links and are found by their identities,
    -- and those with nodes below them are symbols or menus of the interface: every item of the
    -- tree in single-menu mode hangs at the top level or at a symbol.
    pub build_menu_tree-Implicit :
        (m : MenuNode)
        → HasMenus m.list
        → IsKnown m.list
        → IsBelow tree m.id m.list
        → Every RowImplicit (build_menu_tree tree conf show_all m [])
    unfolding build_menu_tree shown_menu_nodes
    build_menu_tree-Implicit m h k b =
        add_all-Implicit m.id (menu_nodes conf show_all m.list) []
          (menu_nodes-Every (Placed m.id) conf show_all m.list
            (chain-Placed m.id m.id m.list (inl refl) h k b))
          tt
