-- ===== src/Menuconfig/Shown/ShowAll.antt =====
-- Show-all mode against the normal mode (`_shown_nodes()` in menuconfig.py).
use mathlib.Core.List.{Sublistᴰ}
use ve_root.Base.{
  Sublistᴰ-append, Sublistᴰ-nil, ◌≡◌, refl, Bool, true, false, not, ◌&&◌, List, [], ◌∷◌, ◌++◌,
  if◌then◌else◌, Bool-cases, inl, inr,
}
use ve_root.Menuconfig.Nodes.{
  Item, Chain, end, node, MenuNode, menu_node, nonempty, Tree, Conf, is_symbol, is_choice, choice,
  symbol, menu, comment,
}
use ve_root.Menuconfig.Shown.{visible, rec, is_empty, shown_nodes, shown_in}

module _ {ℓ} {A : Type ℓ} where
  below-if :
      (b : Bool) {xs xs' ys ys' : List A}
      → Sublistᴰ xs xs'
      → Sublistᴰ ys ys'
      → Sublistᴰ ((if b then xs else []) ++ ys) ((if b then xs' else []) ++ ys')
  below-if true p q = Sublistᴰ-append p q
  below-if false p q = q

-- An entry that is not visible itself.
hidden_entry :
    (ne sy mc : Bool) (x : MenuNode) (sub : List MenuNode) {sub' rest rest' : List MenuNode}
    → Sublistᴰ sub sub'
    → Sublistᴰ rest rest'
    → Sublistᴰ
        (if ne && sy
          then (if is_empty sub then rest else x ∷ ((if mc then [] else sub) ++ rest))
          else rest)
        (x ∷ ((if ne && not mc then sub' else []) ++ rest'))
unfolding is_empty
hidden_entry false sy mc x sub p q = Sublistᴰ.cons q
hidden_entry true false mc x sub p q = Sublistᴰ.cons (Sublistᴰ-append (Sublistᴰ-nil _) q)
hidden_entry true true mc x [] p q = Sublistᴰ.cons (Sublistᴰ-append (Sublistᴰ-nil _) q)
hidden_entry true true true x (y ∷ sub) p q = Sublistᴰ.cons-cons refl q
hidden_entry true true false x (y ∷ sub) p q = Sublistᴰ.cons-cons refl (Sublistᴰ-append p q)

module _ (conf : Conf) where
  rec-show_all : (c : Chain) → Sublistᴰ (rec conf false c) (rec conf true c)
  unfolding rec
  rec-show_all end = Sublistᴰ.slnil
  rec-show_all (node a l n) = elim (Bool-cases (visible conf a)) [
    | inl shows ↦ rw shows (
        Sublistᴰ.cons-cons refl
          (below-if (nonempty l && not a.is_menuconfig) (rec-show_all l) (rec-show_all n)))
    | inr hidden ↦ rw hidden (
        hidden_entry (nonempty l) (is_symbol a.item) a.is_menuconfig (menu_node a l)
          (rec conf false l) (rec-show_all l) (rec-show_all n))
  ]

  shown_in-show_all :
      (tree : Tree) (m : MenuNode) (i : Item)
      → is_choice i ≡ false
      → Sublistᴰ (shown_in tree conf false m i) (shown_in tree conf true m i)
  unfolding shown_in
  shown_in-show_all tree m (choice c) h = cc
  shown_in-show_all tree m (symbol s) h = rec-show_all m.list
  shown_in-show_all tree m menu h = rec-show_all m.list
  shown_in-show_all tree m comment h = rec-show_all m.list

  -- In a menu that is not a choice, show-all mode adds entries and keeps all the others, in the
  -- same order.
  pub shown_nodes-show_all :
      (tree : Tree) (m : MenuNode)
      → is_choice m.item ≡ false
      → Sublistᴰ (shown_nodes tree conf false m) (shown_nodes tree conf true m)
  unfolding shown_nodes
  shown_nodes-show_all tree m h = shown_in-show_all tree m m.item h
