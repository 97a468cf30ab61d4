-- ===== src/Menuconfig/Texts.antt =====
-- The texts of menu entries (menuconfig.py): `_value_str()`, `_should_show_name()` and `_node_str()`.
pub mod Pinned
use ve_root.Base.{
  ℕ, zero, suc, ◌+◌, ◌*◌, Bool, true, false, not, ◌&&◌, ◌||◌, Option, none, some, List, [], ◌∷◌,
  ◌++◌, length, ltb, ◌==◌, if◌then◌else◌, codes, pad_right,
}
use ve_root.Menuconfig.Nodes.{
  Item, symbol, choice, menu, comment, is_symbol, Prompt, Attrs, MenuNode, Tree, Conf, Text,
  SymType, bool, tristate, string, int, hex, unknown,
}
use ve_root.Menuconfig.Shown.{shown_nodes}
use ve_root.Menuconfig.Session.{World, UserValue}
use ve_root.Menuconfig.Values.{is_sc, is_y_mode_choice_sym}

-- What only the texts ask of kconfiglib: `standard_sc_expr_str()`, and whether the current type is
-- bool.
pub record Labels : Type 0 where
  pub sc_expr_str : Item → Text
  pub is_bool : Conf → Item → Bool

abbrev pub tri_val_str : ℕ → Text
tri_val_str zero = codes " "
tri_val_str (suc zero) = codes "M"
tri_val_str (suc (suc n)) = codes "*"

abbrev pub wrap : ℕ → Text → ℕ → Text
wrap left t right = left ∷ (t ++ (right ∷ []))

has_value : Option UserValue → Bool
has_value none = false
has_value (some v) = true

-- A name in a text.
name_or_none : Option Text → Text
name_or_none none = codes "None"
name_or_none (some t) = t

-- `item.assignable == (1, 2)`
unfoldable pub is_m_y : List ℕ → Bool
is_m_y (a ∷ (b ∷ [])) = a == 1 && b == 2
is_m_y _ = false

is_selection : Option ℕ → ℕ → Bool
is_selection none s = false
is_selection (some t) s = t == s

unfoldable pub is_unknown : SymType → Bool
is_unknown unknown = true
is_unknown _ = false

is_comment : Item → Bool
is_comment comment = true
is_comment _ = false

first_prompt : List MenuNode → Option Text
first_prompt [] = none
first_prompt (n ∷ ns) = elim n.prompt [ none ↦ first_prompt ns | some p ↦ some p.text ]

-- The levels above an entry up to the closest `menuconfig` item. There is one: the top node.
levels_above : List MenuNode → ℕ
levels_above [] = 0
levels_above (n ∷ ns) = let more = levels_above ns in if n.is_menuconfig then 0 else suc more

is_nonempty : List MenuNode → Bool
is_nonempty [] = false
is_nonempty (n ∷ ns) = true

-- The value by the type of the symbol or choice. A type is not known only where kconfiglib warns.
typed_form : SymType → Text → Text → Text
typed_form unknown s tri = []
typed_form string s tri = wrap b'(' s b')'
typed_form int s tri = wrap b'(' s b')'
typed_form hex s tri = wrap b'(' s b')'
typed_form bool s tri = tri
typed_form tristate s tri = tri

-- A bool or tristate symbol or choice: whether it is a choice symbol in y mode, is selected, has more
-- than one assignable value, is a choice, has the type bool, and has the values m and y.
tri_form : Bool → Bool → Bool → Bool → Bool → Bool → Text → Text
tri_form y_mode selected many is_choice is_bool m_y t =
    if y_mode
    then (if selected then codes "(X)" else codes "( )")
    else if not many
    then (if is_choice then [] else wrap b'-' t b'-')
    else if is_bool
    then wrap b'[' t b']'
    else if m_y
    then wrap b'{' t b'}'
    else wrap b'<' t b'>'

module _ (world : World) (labels : Labels) (tree : Tree) (conf : Conf) where
  -- `item.choice.selection is item`, for a symbol in a choice.
  unfoldable pub is_selected : Item → Bool
  unfolding is_selection
  is_selected (symbol s) = elim (tree.choice_of s) [
    | none ↦ false
    | some c ↦ is_selection (conf.selection c) s
  ]
  is_selected _ = false

  is_choice_item : Item → Bool
  is_choice_item (choice c) = true
  is_choice_item _ = false

  tri_text : Item → Text
  unfolding is_y_mode_choice_sym is_selected is_choice_item is_m_y tri_form
  tri_text item =
      tri_form (is_y_mode_choice_sym world tree conf item) (is_selected item)
        (ltb 1 (length (conf.assignable item))) (is_choice_item item) (labels.is_bool conf item)
        (is_m_y (conf.assignable item)) (tri_val_str (conf.tri_value item))

  unfoldable pub value_str : Item → Text
  unfolding is_sc typed_form tri_text
  value_str item =
      if is_sc item
      then typed_form (tree.orig_type item) (conf.str_value item) (tri_text item)
      else []

  has_prompt : Attrs → Bool
  has_prompt a = elim a.prompt [ none ↦ false | some p ↦ true ]

  should_show_name : Bool → Attrs → Bool
  unfolding has_prompt is_sc
  should_show_name show_name a = not (has_prompt a) || show_name && is_sc a.item

  name_text : Bool → Attrs → Text
  unfolding should_show_name name_or_none
  name_text show_name a =
      if should_show_name show_name a
      then (if is_symbol a.item
          then codes " <" ++ (name_or_none (world.sc_name a.item) ++ codes ">")
          else codes " " ++ labels.sc_expr_str a.item)
      else []

  -- `sym.choice and sym.choice.tri_value == 2`
  in_y_choice : ℕ → Bool
  in_y_choice s = elim (tree.choice_of s) [ none ↦ false | some c ↦ conf.tri_value (choice c) == 2 ]

  new_text : Item → Text
  unfolding in_y_choice is_unknown has_value
  new_text (symbol s) =
      if not (has_value (world.user_value conf s))
        && (not (is_unknown (tree.orig_type (symbol s))) && not (in_y_choice s))
      then codes " (NEW)"
      else []
  new_text _ = []

  prompt_text : Attrs → Text
  unfolding is_comment new_text
  prompt_text a = elim a.prompt [
    | none ↦ []
    | some p ↦
        (if is_comment a.item
          then codes " *** " ++ (p.text ++ codes " ***")
          else codes " " ++ p.text)
        ++ new_text a.item
  ]

  is_child_of : ℕ → MenuNode → Bool
  is_child_of i n = elim (tree.ancestors n.id) [ [] ↦ false | p ∷ ps ↦ p.id == i ]

  -- The nodes of a symbol whose parent is the node `i`.
  children_of : ℕ → List MenuNode → List MenuNode
  unfolding is_child_of
  children_of i [] = []
  children_of i (n ∷ ns) = if is_child_of i n then n ∷ children_of i ns else children_of i ns

  or_else : Option Text → Option Text → Option Text
  or_else none o = o
  or_else (some t) o = some t

  in_brackets : Option Text → Text
  in_brackets none = []
  in_brackets (some t) = codes " (" ++ (t ++ codes ")")

  selection_text : Attrs → Text
  unfolding first_prompt children_of or_else in_brackets
  selection_text a = elim a.item [
    | choice c ↦
        if conf.tri_value (choice c) == 2
        then (elim (conf.selection c) [
          | none ↦ []
          | some s ↦ in_brackets (
              or_else (first_prompt (children_of a.id (tree.sym_nodes s)))
                (first_prompt (tree.sym_nodes s)))
        ])
        else []
    | symbol s ↦ []
    | menu ↦ []
    | comment ↦ []
  ]

  menu_text : Bool → MenuNode → Text
  unfolding is_nonempty
  menu_text show_all n =
      if n.is_menuconfig
      then (if is_nonempty (shown_nodes tree conf show_all n)
          then codes "  --->"
          else codes "  ----")
      else []

  -- `_node_str()`, in one of the modes for names and of the show-all mode.
  unfoldable pub node_str : Bool → Bool → MenuNode → Text
  unfolding value_str levels_above name_text prompt_text selection_text menu_text
  node_str show_name show_all n =
      pad_right (3 + 4 * levels_above (tree.ancestors n.id)) (value_str n.item)
      ++ (name_text show_name n.attrs
          ++ (prompt_text n.attrs ++ (selection_text n.attrs ++ menu_text show_all n)))
