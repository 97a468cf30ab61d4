-- ===== src/Guiconfig/View.antt =====
-- The Treeview of the main window (guiconfig.py): the items that are attached, each at its place,
-- and how `_update_tree()` builds them. Tk itself is not modelled beyond `move`, `detach`,
-- `get_children` and the flag `open` of an item. The texts and images of the items and the scroll are left
-- out, and so are the tags but for "invisible".
pub mod Attached
pub mod Updated
pub mod TopLevel
pub mod Implicit
pub mod Ends
use ve_root.Base.{
  ℕ, zero, suc, ◌+◌, Bool, true, false, not, ◌&&◌, ◌||◌, Option, none, some, List, [], ◌∷◌, ◌++◌,
  ◌==◌, if◌then◌else◌, ◌>>=◌, get_elem?,
}
use ve_root.Menuconfig.Nodes.{Chain, end, node, MenuNode, nonempty, is_symbol, Tree, Conf}
use ve_root.Menuconfig.Shown.{visible}
use ve_root.Guiconfig.Shown.{size, shown_full_nodes, shown_menu_nodes}

-- Where an item hangs: at `""`, at an item, or at `id(None)`, which is no item.
pub data Place : Type 0 where
  top_level : Place
  under : ℕ → Place
  nowhere : Place

abbrev pub is_at : Place → Place → Bool
is_at top_level top_level = true
is_at (under a) (under b) = a == b
is_at nowhere nowhere = true
is_at _ _ = false

-- An attached item with its place, and whether it has the tag "invisible".
pub record Row : Type 0 where
  pub place : Place
  pub id : ℕ
  pub red : Bool

-- The attached items; those of one place are in the order of the display. Whether an item is open
-- does not depend on its being attached.
pub record View : Type 0 where
  pub rows : List Row
  pub is_open : ℕ → Bool
  pub focus : Option ℕ

-- `Treeview.detach()` of one item.
pub detach : ℕ → List Row → List Row
detach i [] = []
detach i (r ∷ rs) = if r.id == i then detach i rs else r ∷ detach i rs

-- `move(item, place, "end")`, with the tag of the item.
pub move : Bool → ℕ → Place → List Row → List Row
unfolding detach
move red i place rs = detach i rs ++ (record { place = place; id = i; red = red } ∷ [])

-- `get_children(place)`
unfoldable pub get_children : Place → List Row → List ℕ
get_children place [] = []
get_children place (r ∷ rs) =
    if is_at place r.place then r.id ∷ get_children place rs else get_children place rs

-- The place of a node whose chain of parents is given.
pub place_in : ℕ → List MenuNode → Place
place_in top [] = nowhere
place_in top (p ∷ ps) = if p.id == top then top_level else under p.id

-- `id(node.parent)`
pub place_of : List MenuNode → Place
place_of [] = nowhere
place_of (p ∷ ps) = under p.id

module _ (tree : Tree) (conf : Conf) (show_all : Bool) where
  -- `_add_to_tree()`
  pub add_to_tree : ℕ → MenuNode → List Row → List Row
  unfolding move place_in visible
  add_to_tree top n rs =
      move (not (visible conf n.attrs) && show_all) n.id (place_in top (tree.ancestors n.id)) rs

  add_all : ℕ → List MenuNode → List Row → List Row
  unfolding add_to_tree
  add_all top [] rs = rs
  add_all top (n ∷ ns) rs = add_all top ns (add_to_tree top n rs)

  -- `_build_menu_tree()`
  pub build_menu_tree : MenuNode → List Row → List Row
  unfolding add_all shown_menu_nodes
  build_menu_tree cur_menu rs = add_all cur_menu.id (shown_menu_nodes conf show_all cur_menu) rs

  -- The dummy child of a closed menu, whose tag is set anew before it can be seen.
  add_dummy : List MenuNode → List Row → List Row
  unfolding move place_of
  add_dummy [] rs = rs
  add_dummy (n ∷ _) rs = move false n.id (place_of (tree.ancestors n.id)) rs

  add_below :
      (MenuNode → List Row → Option (List Row)) → Bool → MenuNode → List Row → Option (List Row)
  unfolding add_dummy
  add_below build opened n rs =
      if nonempty n.list && not (is_symbol n.item)
      then (if opened then build n rs else some (add_dummy (shown_menu_nodes conf show_all n) rs))
      else some rs

  -- The loop over the shown nodes, `build` being the call of the function itself.
  each :
      (MenuNode → List Row → Option (List Row))
      → (ℕ → Bool)
      → List MenuNode
      → List Row
      → Option (List Row)
  unfolding add_below
  each build is_open [] rs = some rs
  each build is_open (n ∷ ns) rs =
      add_below build (is_open n.id) n (add_to_tree tree.top_node.id n rs) >>= each build is_open ns

  -- `_build_full_tree()`, on fuel; `none` if it is used up.
  pub build_full_tree : ℕ → (ℕ → Bool) → MenuNode → List Row → Option (List Row)
  unfolding each
  build_full_tree zero is_open menu rs = none
  build_full_tree (suc fuel) is_open menu rs =
      each (build_full_tree fuel is_open) is_open (shown_full_nodes conf show_all menu) rs

module _ (tree : Tree) (conf : Conf) (show_all : Bool) where
  -- `_build_full_tree(menu)`, with fuel for all the nodes below the menu.
  unfoldable pub build_full : (ℕ → Bool) → MenuNode → List Row → Option (List Row)
  unfolding build_full_tree
  build_full is_open menu rs =
      build_full_tree tree conf show_all (suc (size menu.list)) is_open menu rs

  -- The rows after `_update_tree()`, which detaches all items first.
  unfoldable pub updated : (single_menu : Bool) → MenuNode → (ℕ → Bool) → Option (List Row)
  unfolding build_menu_tree build_full
  updated true cur_menu is_open = some (build_menu_tree tree conf show_all cur_menu [])
  updated false cur_menu is_open = build_full is_open tree.top_node []
