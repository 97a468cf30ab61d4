-- ===== src/Guiconfig/Shown/Every.antt =====
-- A property of the nodes that single-menu mode shows (guiconfig.py).
use ve_root.Base.{◌≡◌, refl, Bool, true, false, ◌||◌, List, [], ◌∷◌, Every, Every-append}
use ve_root.Menuconfig.Nodes.{Chain, end, node, MenuNode, menu_node, nonempty, is_symbol, Conf}
use ve_root.Menuconfig.Shown.{visible}
use ve_root.Guiconfig.Shown.{menu_round, menu_nodes}

round-Every :
    (P : MenuNode → Type 0) (shows has_list symbol entered : Bool) (n : MenuNode)
    (sub rest : List MenuNode)
    → P n
    → (has_list ≡ true → entered ≡ false → Every P sub)
    → Every P rest
    → Every P (menu_round shows has_list symbol entered n sub rest)
unfolding menu_round
round-Every P true true symbol false n sub rest p h r = (p, Every-append P sub rest (h refl refl) r)
round-Every P true true symbol true n sub rest p h r = (p, r)
round-Every P true false symbol entered n sub rest p h r = (p, r)
round-Every P false true true entered n [] rest p h r = r
round-Every P false true true true n (m ∷ sub) rest p h r = (p, r)
round-Every P false true true false n (m ∷ sub) rest p h r =
    (p, Every-append P (m ∷ sub) rest (h refl refl) r)
round-Every P false true false entered n sub rest p h r = r
round-Every P false false symbol entered n sub rest p h r = r

-- The nodes that single-menu mode may show have the property.
abbrev pub Covers : (MenuNode → Type 0) → Chain → Type 0
Covers P end = Unit
Covers P (node a l next) =
    P (menu_node a l) × (nonempty l ≡ true → a.is_menuconfig ≡ false → Covers P l) × Covers P next

pub menu_nodes-Every :
    (P : MenuNode → Type 0) (conf : Conf) (show_all : Bool) (c : Chain)
    → Covers P c
    → Every P (menu_nodes conf show_all c)
unfolding menu_nodes
menu_nodes-Every P conf show_all end h = tt
menu_nodes-Every P conf show_all (node a l next) h =
    round-Every P (visible conf a || show_all) (nonempty l) (is_symbol a.item) a.is_menuconfig
      (menu_node a l) (menu_nodes conf show_all l) (menu_nodes conf show_all next) h.0
      (λ has flat. menu_nodes-Every P conf show_all l (h.1 has flat))
      (menu_nodes-Every P conf show_all next h.2)
