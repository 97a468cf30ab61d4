-- ===== src/Guiconfig/Shown/Probe.antt =====
-- The two lists of shown entries against each other (guiconfig.py).
use mathlib.Core.List.{Sublistᴰ}
use ve_root.Base.{
  Sublistᴰ-append, Sublistᴰ-nil, ◌≡◌, refl, Bool, true, false, ◌||◌, List, [], ◌∷◌, get_elem?,
}
use ve_root.Menuconfig.Nodes.{Chain, end, node, MenuNode, menu_node, nonempty, is_symbol, Conf}
use ve_root.Menuconfig.Shown.{visible}
use ve_root.Guiconfig.Shown.{
  full_round, full_nodes, shown_full_nodes, menu_round, menu_nodes, shown_menu_nodes,
}

-- An entry with entries below it that is no symbol is a menu of the interface.
abbrev pub HasMenus : Chain → Type 0
HasMenus end = Unit
HasMenus (node a l next) =
    (nonempty l ≡ true → a.is_menuconfig ≡ false → is_symbol a.item ≡ true)
    × HasMenus l
    × HasMenus next

-- The same first entry, and the entries of the first list among those of the second, in order.
abbrev pub Probes : List MenuNode → List MenuNode → Type 0
Probes xs ys = (get_elem? xs 0 ≡ get_elem? ys 0) × Sublistᴰ xs ys

-- One round, where the lists below and after the entry are related already.
round-Probes :
    (shows has_list symbol is_menuconfig : Bool) (n : MenuNode)
    (sub sub' rest rest' : List MenuNode)
    → (has_list ≡ true → is_menuconfig ≡ false → symbol ≡ true)
    → Probes sub sub'
    → Probes rest rest'
    → Probes
        (menu_round shows has_list symbol is_menuconfig n sub rest)
        (full_round shows has_list symbol n sub' rest')
unfolding menu_round full_round
round-Probes true true true true n sub sub' rest rest' h p q =
    (refl, Sublistᴰ.cons-cons refl (Sublistᴰ-append (Sublistᴰ-nil sub') q.1))
round-Probes true true true false n sub sub' rest rest' h p q =
    (refl, Sublistᴰ.cons-cons refl (Sublistᴰ-append p.1 q.1))
round-Probes true true false true n sub sub' rest rest' h p q = (refl, Sublistᴰ.cons-cons refl q.1)
round-Probes true true false false n sub sub' rest rest' h p q =
    let e : false ≡ true = h refl refl in cc
round-Probes true false sy mc n sub sub' rest rest' h p q = (refl, Sublistᴰ.cons-cons refl q.1)
round-Probes false true true mc n [] [] rest rest' h p q = q
round-Probes false true true mc n [] (m ∷ sub') rest rest' h p q = let e = p.0 in cc
round-Probes false true true mc n (m ∷ sub) [] rest rest' h p q = let e = p.0 in cc
round-Probes false true true true n (m ∷ sub) (m' ∷ sub') rest rest' h p q =
    (refl, Sublistᴰ.cons-cons refl (Sublistᴰ-append (Sublistᴰ-nil (m' ∷ sub')) q.1))
round-Probes false true true false n (m ∷ sub) (m' ∷ sub') rest rest' h p q =
    (refl, Sublistᴰ.cons-cons refl (Sublistᴰ-append p.1 q.1))
round-Probes false true false mc n sub sub' rest rest' h p q = q
round-Probes false false sy mc n sub sub' rest rest' h p q = q

module _ (conf : Conf) (show_all : Bool) where
  nodes-Probes :
      (c : Chain) → HasMenus c → Probes (menu_nodes conf show_all c) (full_nodes conf show_all c)
  unfolding menu_nodes full_nodes
  nodes-Probes end h = (refl, Sublistᴰ.slnil)
  nodes-Probes (node a l next) h =
      round-Probes (visible conf a || show_all) (nonempty l) (is_symbol a.item) a.is_menuconfig
        (menu_node a l) (menu_nodes conf show_all l) (full_nodes conf show_all l)
        (menu_nodes conf show_all next) (full_nodes conf show_all next) h.0 (nodes-Probes l h.1)
        (nodes-Probes next h.2)

  -- If every entry with entries below it is a symbol or a menu of the interface, then what a menu
  -- shows in single-menu mode is part of what it shows in full-tree mode, in the same order, and
  -- has the same first entry.
  pub shown_menu_nodes-Probes :
      (menu : MenuNode)
      → HasMenus menu.list
      → Probes (shown_menu_nodes conf show_all menu) (shown_full_nodes conf show_all menu)
  unfolding shown_menu_nodes shown_full_nodes
  shown_menu_nodes-Probes menu h = nodes-Probes menu.list h
