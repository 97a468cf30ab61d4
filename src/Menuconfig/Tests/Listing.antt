-- ===== src/Menuconfig/Tests/Listing.antt =====
-- Runs of the sorted lists of nodes, and an instance of the theorem on them (menuconfig.py).
use mathlib.Core.List.{Permᴰ}
use ve_root.Base.{
  ℕ, ◌≡◌, refl, true, false, none, some, List, [], ◌∷◌, ◌++◌, map, ◌==◌, if◌then◌else◌, lt_text,
}
use ve_root.Base.Sort.{IsOrdered}
use ve_root.Menuconfig.Nodes.{symbol, choice, end, MenuNode, menu_node, Tree}
use ve_root.Menuconfig.Listing.{Listed, nodes_of, sorted_sc_nodes}
use ve_root.Menuconfig.Listing.Ordered.{ByName, ByPrompt, HasNodes, sorted_sc_nodes_lem}
use ve_root.Menuconfig.Tests.{attrs_of, sample_tree, sub_menu}

-- The node of a symbol or a choice has its number.
abbrev tree : Tree
tree = record sample_tree {
  sym_nodes = λ s. menu_node (attrs_of s (symbol s) false 1) end ∷ [];
  choice_nodes = λ c. menu_node (attrs_of c (choice c) true 1) end ∷ [];
}

-- The symbols 1 and 2 are named "b" and "a", and so are the choices 3 and 4; choice 5 has no name.
abbrev listed : Listed
listed = record {
  unique_defined_syms = 1 ∷ (2 ∷ []);
  sym_name = λ s. (if s == 1 then b'b' else b'a') ∷ [];
  unique_choices = 3 ∷ (4 ∷ (5 ∷ []));
  choice_name = λ c. if c == 5 then none else some ((if c == 3 then b'b' else b'a') ∷ []);
  menus = sub_menu ∷ [];
  comments = [];
}

tree-HasNodes : HasNodes tree listed
tree-HasNodes c = (refl, tt)

sorted_sc_nodes_lem_example :
    (syms : List ℕ) × (nodes : List MenuNode) × (sorted_sc_nodes tree listed
      ≡ nodes_of tree.sym_nodes syms ++ nodes)
    × Permᴰ syms (1 ∷ (2 ∷ []))
    × IsOrdered (ByName tree listed) syms
    × Permᴰ nodes (nodes_of tree.choice_nodes (3 ∷ (4 ∷ (5 ∷ []))))
    × IsOrdered (ByPrompt tree listed) nodes
sorted_sc_nodes_lem_example = sorted_sc_nodes_lem tree listed tree-HasNodes

sc_run : map (λ (n : MenuNode). n.id) (sorted_sc_nodes tree listed) ≡ 2 ∷ (1 ∷ (5 ∷ (4 ∷ (3 ∷ []))))
unfolding sorted_sc_nodes lt_text
sc_run = refl
