-- ===== src/Menuconfig/Tests.antt =====
-- A small menu tree, runs of the operations of menuconfig.py on it, and instances of the theorems.
mod Colors
mod Editing
mod Listing
mod Moving
mod Texts
pub mod Running
use ve_root.Base.{ℕ, Bool, true, false, Option, none, some, List, [], ◌∷◌, ◌==◌, if◌then◌else◌}
use ve_root.Menuconfig.Nodes.{
  Item, symbol, choice, menu, comment, Prompt, Attrs, Chain, end, node, MenuNode, menu_node, Tree,
  Conf, SymType, bool,
}
use ve_root.Menuconfig.State.{State}

-- Expression 0 has the value n, the others the value y.
abbrev pub attrs_of : ℕ → Item → Bool → ℕ → Attrs
attrs_of i item entered cond = record {
  id = i;
  item = item;
  is_menuconfig = entered;
  prompt = some (record { text = b'p' ∷ []; cond = cond });
  visibility = 1;
}

-- In the top menu: FOO (1), a menu (2) with BAR (3) and the hidden BAZ (4), and a choice (5) of
-- the symbols QUX (6) and QUUX (7).
abbrev pub sub_list : Chain
sub_list = node (attrs_of 3 (symbol 30) false 1) end (node (attrs_of 4 (symbol 40) false 0) end end)

abbrev pub choice_list : Chain
choice_list =
    node (attrs_of 6 (symbol 60) false 1) end (node (attrs_of 7 (symbol 70) false 1) end end)

abbrev pub sub_menu : MenuNode
sub_menu = menu_node (attrs_of 2 menu true 1) sub_list

abbrev pub choice_menu : MenuNode
choice_menu = menu_node (attrs_of 5 (choice 50) true 1) choice_list

abbrev pub top : MenuNode
top = menu_node (attrs_of 0 menu true 1) (
    node (attrs_of 1 (symbol 10) false 1) end (
      node (attrs_of 2 menu true 1) sub_list
        (node (attrs_of 5 (choice 50) true 1) choice_list end)))

abbrev pub bar : MenuNode
bar = menu_node (attrs_of 3 (symbol 30) false 1) end

abbrev pub baz : MenuNode
baz = menu_node (attrs_of 4 (symbol 40) false 0) end

abbrev pub foo : MenuNode
foo = menu_node (attrs_of 1 (symbol 10) false 1) end

abbrev pub sample_ancestors : ℕ → List MenuNode
sample_ancestors i =
    if i == 0
    then []
    else if i == 3
    then sub_menu ∷ (top ∷ [])
    else if i == 4
    then sub_menu ∷ (top ∷ [])
    else top ∷ []

abbrev pub sample_tree : Tree
sample_tree = record {
  top_node = top;
  ancestors = sample_ancestors;
  choice_nodes = λ _. choice_menu ∷ [];
  sym_nodes = λ s. if s == 70 then menu_node (attrs_of 7 (symbol 70) false 1) end ∷ [] else [];
  orig_type = λ _. bool;
  choice_of = λ s. if s == 60 then some 50 else if s == 70 then some 50 else none;
  ranges = λ _. [];
}

abbrev pub sample_conf : Conf
sample_conf = record {
  expr_value = λ e. if e == 0 then 0 else 2;
  selection = λ _. some 70;
  str_value = λ _. b'n' ∷ [];
  tri_value = λ _. 0;
  assignable = λ _. 0 ∷ (2 ∷ []);
  sym_visibility = λ _. 2;
}

abbrev pub start : State
start = record {
  conf = sample_conf;
  cur_menu = top;
  shown = foo ∷ (sub_menu ∷ (choice_menu ∷ []));
  sel_node_i = 1;
  menu_scroll = 0;
  parent_screen_rows = [];
  height = 2;
  show_help = false;
  show_name = false;
  show_all = false;
  conf_changed = false;
}
