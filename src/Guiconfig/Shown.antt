-- ===== src/Guiconfig/Shown.antt =====
-- `_shown_full_nodes()` and `_shown_menu_nodes()` (guiconfig.py): what a menu shows in the two tree
-- modes. A helper by clauses takes the truth values of the tests, in the order of the code.
pub mod Probe
pub mod Ordered
pub mod Every
pub mod Sized
pub mod Empty
use ve_root.Base.{ℕ, suc, ◌+◌, Bool, true, false, not, ◌||◌, List, [], ◌∷◌, ◌++◌}
use ve_root.Menuconfig.Nodes.{Chain, end, node, MenuNode, menu_node, nonempty, is_symbol, Conf}
use ve_root.Menuconfig.Shown.{visible}

-- One round of the loop in `rec()`, full-tree mode: `sub` is `rec(node.list)` and `rest` what the
-- loop adds from `node.next` on.
full_round : (shows has_list symbol : Bool) → MenuNode → (sub rest : List MenuNode) → List MenuNode
full_round true true true n sub rest = n ∷ (sub ++ rest)
full_round true has_list symbol n sub rest = n ∷ rest
full_round false true true n [] rest = rest
full_round false true true n (m ∷ sub) rest = n ∷ ((m ∷ sub) ++ rest)
full_round false has_list symbol n sub rest = rest

pub full_nodes : Conf → Bool → Chain → List MenuNode
unfolding full_round
full_nodes conf show_all end = []
full_nodes conf show_all (node a l next) =
    full_round (visible conf a || show_all) (nonempty l) (is_symbol a.item) (menu_node a l)
      (full_nodes conf show_all l) (full_nodes conf show_all next)

-- `_shown_full_nodes()`
unfoldable pub shown_full_nodes : Conf → Bool → MenuNode → List MenuNode
unfolding full_nodes
shown_full_nodes conf show_all menu = full_nodes conf show_all menu.list

-- One round of the loop in `rec()`, single-menu mode.
menu_round :
    (shows has_list symbol is_menuconfig : Bool)
    → MenuNode
    → (sub rest : List MenuNode) → List MenuNode
menu_round true true symbol false n sub rest = n ∷ (sub ++ rest)
menu_round true has_list symbol is_menuconfig n sub rest = n ∷ rest
menu_round false true true is_menuconfig n [] rest = rest
menu_round false true true true n (m ∷ sub) rest = n ∷ rest
menu_round false true true false n (m ∷ sub) rest = n ∷ ((m ∷ sub) ++ rest)
menu_round false has_list symbol is_menuconfig n sub rest = rest

pub menu_nodes : Conf → Bool → Chain → List MenuNode
unfolding menu_round
menu_nodes conf show_all end = []
menu_nodes conf show_all (node a l next) =
    menu_round (visible conf a || show_all) (nonempty l) (is_symbol a.item) a.is_menuconfig
      (menu_node a l) (menu_nodes conf show_all l) (menu_nodes conf show_all next)

-- `_shown_menu_nodes()`
unfoldable pub shown_menu_nodes : Conf → Bool → MenuNode → List MenuNode
unfolding menu_nodes
shown_menu_nodes conf show_all menu = menu_nodes conf show_all menu.list

-- The nodes of a chain, which bound the depth of the recursion.
pub size : Chain → ℕ
size end = 0
size (node a l next) = suc (size l + size next)
