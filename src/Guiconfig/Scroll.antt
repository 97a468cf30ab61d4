-- ===== src/Guiconfig/Scroll.antt =====
-- The item by which `_do_showall()` keeps the scroll (guiconfig.py): a neighbour of an item on the
-- screen that is not red.
use ve_root.Base.{ℕ, Option, none, some, List, [], ◌∷◌, length, ◌==◌, if◌then◌else◌}
use ve_root.Guiconfig.View.{Place, nowhere, is_at, Row}
use ve_root.Guiconfig.Window.{raises, Gui, above}

-- The place of an attached item.
place_at : ℕ → List Row → Place
place_at i [] = nowhere
place_at i (r ∷ rs) = if r.id == i then r.place else place_at i rs

rows_at : Place → List Row → List Row
rows_at place [] = []
rows_at place (r ∷ rs) = if is_at place r.place then r ∷ rows_at place rs else rows_at place rs

-- The items at the place of an item, in their order.
siblings : ℕ → List Row → List Row
unfolding place_at rows_at
siblings i rs = rows_at (place_at i rs) rs

-- An item with those before it, as `prev()` goes through them. The list before it grows.
up_to : ℕ → List Row → List Row → List Row
up_to i before [] = []
up_to i before (r ∷ rs) = if r.id == i then r ∷ before else up_to i (r ∷ before) rs

-- An item with those after it, as `next()` goes through them.
from : ℕ → List Row → List Row
from i [] = []
from i (r ∷ rs) = if r.id == i then r ∷ rs else from i rs

-- The items after an item.
after : ℕ → List Row → List Row
unfolding from
after i rs = elim (from i rs) [ [] ↦ [] | _ ∷ rest ↦ rest ]

-- The first item without the tag "invisible".
first_visible : List Row → Option ℕ
first_visible [] = none
first_visible (r ∷ rs) = if r.red then first_visible rs else some r.id

-- `_vis_before()` on an item, with the items that it hangs below.
vis_before : List Row → List ℕ → Option ℕ
unfolding siblings up_to first_visible
vis_before rs [] = none
vis_before rs (i ∷ is) = elim (first_visible (up_to i [] (siblings i rs))) [
  | none ↦ vis_before rs is
  | some k ↦ some k
]

-- The loop of `_vis_after()` from the first of some siblings, with the items that they hang below.
-- It ends where a parent has nothing after it.
vis_after : List Row → List Row → List ℕ → Option ℕ
unfolding siblings after first_visible
vis_after rs items [] = first_visible items
vis_after rs items (p ∷ ps) = elim (first_visible items) [
  | some k ↦ some k
  | none ↦ elim items [ [] ↦ none | _ ∷ _ ↦ vis_after rs (after p (siblings p rs)) ps ]
]

-- `_vis_loc_ref_item()`, `ref` being the item that `_loc_ref_item()` finds. Where there are items on
-- both sides, the screen decides between them, on which only the scroll depends.
unfoldable pub vis_loc_ref_item : List Row → ℕ → Option ℕ
unfolding vis_before vis_after siblings from above
vis_loc_ref_item rs ref =
    let parents = above (length rs) ref rs in
    elim (vis_before rs (ref ∷ parents)) [
      | some k ↦ some k
      | none ↦ vis_after rs (from ref (siblings ref rs)) parents
    ]

-- `_item_row(_vis_loc_ref_item())` raises a `TclError` if there is no such item. `f` is what follows.
unfoldable pub keep_scroll : ℕ → Gui (Unit {0}) → Gui (Unit {0})
unfolding vis_loc_ref_item
keep_scroll ref f w = elim (vis_loc_ref_item w.rows ref) [ none ↦ raises w | some _ ↦ f w ]
