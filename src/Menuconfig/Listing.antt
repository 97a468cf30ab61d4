-- ===== src/Menuconfig/Listing.antt =====
-- The nodes that the jump-to dialogs search, in their order: `_sorted_sc_nodes()` and
-- `_sorted_menu_comment_nodes()`, which menuconfig.py and guiconfig.py have in common.
pub mod Ordered
use ve_root.Base.{
  ℕ, Bool, true, false, ◌&&◌, Option, none, some, List, [], ◌∷◌, ◌++◌, Text, if◌then◌else◌,
}
use ve_root.Base.Sort.{sorted_by}
use ve_root.Menuconfig.Nodes.{MenuNode, Tree}

-- What the dialogs ask of kconfiglib besides the menu tree.
pub record Listed : Type 0 where
  pub unique_defined_syms : List ℕ
  pub sym_name : ℕ → Text
  pub unique_choices : List ℕ
  pub choice_name : ℕ → Option Text
  pub menus : List MenuNode
  pub comments : List MenuNode

-- `[node for item in items for node in item.nodes]`
pub nodes_of : (ℕ → List MenuNode) → List ℕ → List MenuNode
nodes_of nodes [] = []
nodes_of nodes (i ∷ is) = nodes i ++ nodes_of nodes is

-- `node.prompt[0] if node.prompt else ""`
abbrev pub prompt_or_empty : MenuNode → Text
prompt_or_empty n = elim n.prompt [ none ↦ [] | some p ↦ p.text ]

-- `choice.name or ""`
abbrev pub name_or_empty : Option Text → Text
name_or_empty none = []
name_or_empty (some t) = t

has_prompts : List MenuNode → Bool
has_prompts [] = true
has_prompts (n ∷ ns) = elim n.prompt [ none ↦ false | some _ ↦ true ] && has_prompts ns

module _ (tree : Tree) (listed : Listed) where
  unfoldable pub sorted_sc_nodes : List MenuNode
  unfolding nodes_of sorted_by
  sorted_sc_nodes =
      nodes_of tree.sym_nodes (sorted_by listed.sym_name listed.unique_defined_syms)
      ++ sorted_by prompt_or_empty (
          nodes_of tree.choice_nodes
            (sorted_by (λ c. name_or_empty (listed.choice_name c)) listed.unique_choices))

  -- `none` is the `TypeError` for a menu or a comment without a prompt.
  unfoldable pub sorted_menu_comment_nodes : Option (List MenuNode)
  unfolding has_prompts sorted_by
  sorted_menu_comment_nodes =
      if has_prompts listed.menus && has_prompts listed.comments
      then some
          (sorted_by prompt_or_empty listed.menus ++ sorted_by prompt_or_empty listed.comments)
      else none
