-- ===== src/Guiconfig/Shown/Sized.antt =====
-- The shown nodes of guiconfig.py have fewer nodes below them than the menu.
use ve_root.Base.{ℕ, ◌<◌, ◌≤◌, Bool, true, false, ◌||◌, List, [], ◌∷◌, Every, Every-append, arith}
use ve_root.Menuconfig.Nodes.{Chain, end, node, MenuNode, menu_node, nonempty, is_symbol, Conf}
use ve_root.Menuconfig.Shown.{visible}
use ve_root.Guiconfig.Shown.{full_round, full_nodes, size, shown_full_nodes}

round-Every :
    (P : MenuNode → Type 0) (shows has_list symbol : Bool) (n : MenuNode) (sub rest : List MenuNode)
    → P n
    → Every P sub
    → Every P rest
    → Every P (full_round shows has_list symbol n sub rest)
unfolding full_round
round-Every P true true true n sub rest p h r = (p, Every-append P sub rest h r)
round-Every P true true false n sub rest p h r = (p, r)
round-Every P true false symbol n sub rest p h r = (p, r)
round-Every P false true true n [] rest p h r = r
round-Every P false true true n (m ∷ sub) rest p h r = (p, Every-append P (m ∷ sub) rest h r)
round-Every P false true false n sub rest p h r = r
round-Every P false false symbol n sub rest p h r = r

abbrev pub IsSmaller : ℕ → MenuNode → Type 0
IsSmaller k n = size n.list < k

nodes-IsSmaller :
    (conf : Conf) (show_all : Bool) (k : ℕ) (c : Chain)
    → size c ≤ k
    → Every (IsSmaller k) (full_nodes conf show_all c)
unfolding full_nodes size
nodes-IsSmaller conf show_all k end le = tt
nodes-IsSmaller conf show_all k (node a l next) le =
    round-Every (IsSmaller k) (visible conf a || show_all) (nonempty l) (is_symbol a.item)
      (menu_node a l) (full_nodes conf show_all l) (full_nodes conf show_all next) (omega arith)
      (nodes-IsSmaller conf show_all k l (omega arith))
      (nodes-IsSmaller conf show_all k next (omega arith))

pub shown_full_nodes-IsSmaller :
    (conf : Conf) (show_all : Bool) (m : MenuNode)
    → Every (IsSmaller (size m.list)) (shown_full_nodes conf show_all m)
unfolding shown_full_nodes
shown_full_nodes-IsSmaller conf show_all m =
    nodes-IsSmaller conf show_all (size m.list) m.list (omega arith)
