-- ===== src/Guiconfig/Shown/Empty.antt =====
-- Menus of guiconfig.py that show nothing.
use ve_root.Base.{◌≡◌, refl, Bool, true, false, ◌||◌, List, []}
use ve_root.Menuconfig.Nodes.{Chain, end, node, MenuNode, menu_node, nonempty, is_symbol, Conf}
use ve_root.Menuconfig.Shown.{visible}
use ve_root.Guiconfig.Shown.{menu_round, menu_nodes, shown_menu_nodes}

round-[] :
    (shows has_list symbol entered : Bool) (n : MenuNode) (sub rest : List MenuNode)
    → menu_round (shows || true) has_list symbol entered n sub rest ≡ []
    → ⊥
unfolding menu_round
round-[] true true symbol false n sub rest e = cc
round-[] true true symbol true n sub rest e = cc
round-[] true false symbol entered n sub rest e = cc
round-[] false true symbol false n sub rest e = cc
round-[] false true symbol true n sub rest e = cc
round-[] false false symbol entered n sub rest e = cc

chain-[] :
    (conf : Conf) (c : Chain)
    → menu_nodes conf true c ≡ []
    → (show_all : Bool) → menu_nodes conf show_all c ≡ []
unfolding menu_nodes
chain-[] conf end e b = refl
chain-[] conf (node a l next) e b = absurd (
    round-[] (visible conf a) (nonempty l) (is_symbol a.item) a.is_menuconfig (menu_node a l)
      (menu_nodes conf true l) (menu_nodes conf true next) e)

-- A menu that shows nothing in show-all mode shows nothing at all.
pub shown_menu_nodes-[] :
    (conf : Conf) (m : MenuNode)
    → shown_menu_nodes conf true m ≡ []
    → (show_all : Bool) → shown_menu_nodes conf show_all m ≡ []
unfolding shown_menu_nodes
shown_menu_nodes-[] conf m = chain-[] conf m.list
