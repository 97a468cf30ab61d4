-- ===== src/Menuconfig/Nodes.antt =====
-- What menuconfig.py reads from kconfiglib: the menu tree, which does not change, and the values
-- of symbols, choices and expressions, which do. Objects are told apart by a number, their
-- identity; an expression is named by a number too, and `Conf` gives its value.
use ve_root.Base.{ℕ, Bool, true, false, Option, List, ◌==◌}
pub use ve_root.Base.{Text}

-- `MenuNode.item`.
pub data Item : Type 0 where
  symbol : ℕ → Item
  choice : ℕ → Item
  menu : Item
  comment : Item

abbrev pub is_symbol : Item → Bool
is_symbol (symbol _) = true
is_symbol _ = false

abbrev pub is_choice : Item → Bool
is_choice (choice _) = true
is_choice _ = false

abbrev pub is_menu : Item → Bool
is_menu menu = true
is_menu _ = false

-- Identity of items.
abbrev pub same_item : Item → Item → Bool
same_item (symbol a) (symbol b) = a == b
same_item (choice a) (choice b) = a == b
same_item menu menu = true
same_item comment comment = true
same_item _ _ = false

pub record Prompt : Type 0 where
  pub text : Text
  pub cond : ℕ

-- The attributes of a `MenuNode` but for its links.
pub record Attrs : Type 0 where
  pub id : ℕ
  pub item : Item
  pub is_menuconfig : Bool
  pub prompt : Option Prompt
  pub visibility : ℕ

-- A reference to a menu node, or `None`: the node with its links `list` and `next`.
pub data Chain : Type 0 where
  end : Chain
  node : Attrs → Chain → Chain → Chain

-- A menu node with what hangs below it.
pub record MenuNode : Type 0 where
  pub attrs : Attrs
  pub open attrs use *
  pub list : Chain

abbrev pub menu_node : Attrs → Chain → MenuNode
menu_node a l = record { attrs = a; list = l }

abbrev pub nonempty : Chain → Bool
nonempty end = false
nonempty (node _ _ _) = true

pub data SymType : Type 0 where
  bool tristate string int hex unknown : SymType

-- A range of an int or hex symbol: its two ends, each with its text, and its condition.
pub record Range : Type 0 where
  pub low : ℕ
  pub high : ℕ
  pub cond : ℕ

-- What does not change while the interface runs. `ancestors` is the chain of `parent` links of a
-- node, the nearest first.
pub record Tree : Type 0 where
  pub top_node : MenuNode
  pub ancestors : ℕ → List MenuNode
  pub choice_nodes : ℕ → List MenuNode
  pub sym_nodes : ℕ → List MenuNode
  pub orig_type : Item → SymType
  pub choice_of : ℕ → Option ℕ
  pub ranges : Item → List Range

-- The values that kconfiglib computes from the current configuration.
pub record Conf : Type 0 where
  pub expr_value : ℕ → ℕ
  pub selection : ℕ → Option ℕ
  pub str_value : Item → Text
  pub tri_value : Item → ℕ
  pub assignable : Item → List ℕ
  pub sym_visibility : ℕ → ℕ
