-- ===== src/Menuconfig/Shown.antt =====
-- `_visible()` and `_shown_nodes()` (menuconfig.py): the entries of a menu.
pub mod ShowAll
use ve_root.Base.{
  ℕ, Bool, true, false, not, ◌&&◌, ◌||◌, Option, none, some, List, [], ◌∷◌, ◌++◌, ltb, ◌==◌,
  if◌then◌else◌,
}
use ve_root.Menuconfig.Nodes.{
  Item, symbol, choice, menu, comment, is_symbol, is_menu, same_item, Prompt, Attrs, Chain, end,
  node, MenuNode, menu_node, nonempty, Tree, Conf,
}

abbrev pub truth : ℕ → Bool
truth v = ltb 0 v

unfoldable pub prompt_shows : Conf → Option Prompt → Bool
prompt_shows conf none = false
prompt_shows conf (some p) = truth (conf.expr_value p.cond)

unfoldable pub visible : Conf → Attrs → Bool
unfolding prompt_shows
visible conf a =
    prompt_shows conf a.prompt && not (is_menu a.item && not (truth (conf.expr_value a.visibility)))

is_empty : List MenuNode → Bool
is_empty [] = true
is_empty (_ ∷ _) = false

-- The inner function `rec()`. `sub` is `rec(node.list)` and `rest` is what the loop adds for
-- `node.next` and on.
unfoldable pub rec : Conf → Bool → Chain → List MenuNode
unfolding is_empty visible
rec conf show_all end = []
rec conf show_all (node a l n) =
    let sub = rec conf show_all l in
    let rest = rec conf show_all n in
    if visible conf a || show_all
    then menu_node a l ∷ ((if nonempty l && not a.is_menuconfig then sub else []) ++ rest)
    else if nonempty l && is_symbol a.item
    then (if is_empty sub
        then rest
        else menu_node a l ∷ ((if a.is_menuconfig then [] else sub) ++ rest))
    else rest

seen_item : Item → List Item → Bool
seen_item i [] = false
seen_item i (j ∷ js) = same_item i j || seen_item i js

-- `{node.item for node in nodes if isinstance(node.item, Symbol)}`
symbols_of : List MenuNode → List Item
symbols_of [] = []
symbols_of (n ∷ ns) = if is_symbol n.item then n.item ∷ symbols_of ns else symbols_of ns

-- The inner loop over the nodes of one location, with `seen_syms` threaded through. `here` is
-- `choice_node is menu`.
collect : Bool → List MenuNode → List Item → List MenuNode × List Item
unfolding seen_item
collect here [] seen = ([], seen)
collect here (n ∷ ns) seen =
    let keep = not (seen_item n.item seen) || here in
    let (res, seen') = collect here ns (if keep && is_symbol n.item then n.item ∷ seen else seen) in
    (if keep then n ∷ res else res, seen')

collect_choice : Conf → Bool → MenuNode → List MenuNode → List Item → List MenuNode
unfolding collect
collect_choice conf show_all m [] seen = []
collect_choice conf show_all m (c ∷ cs) seen =
    let (res, seen') = collect (c.id == m.id) (rec conf show_all c.list) seen in
    res ++ collect_choice conf show_all m cs seen'

shown_in : Tree → Conf → Bool → MenuNode → Item → List MenuNode
unfolding collect_choice symbols_of
shown_in tree conf show_all m (choice c) =
    collect_choice conf show_all m (tree.choice_nodes c) (symbols_of (rec conf show_all m.list))
shown_in tree conf show_all m _ = rec conf show_all m.list

unfoldable pub shown_nodes : Tree → Conf → Bool → MenuNode → List MenuNode
unfolding shown_in rec
shown_nodes tree conf show_all m = shown_in tree conf show_all m m.item
