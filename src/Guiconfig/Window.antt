-- ===== src/Guiconfig/Window.antt =====
-- The main window (guiconfig.py): the globals of the script, and the operations on the tree of the
-- window. An exception in a callback of Tk is printed, and the window lives on as the callback
-- left it.
pub mod Post
use ve_root.Base.{
  ℕ, zero, suc, Bool, true, false, ◌&&◌, ◌||◌, Option, none, some, List, [], ◌∷◌, length, ◌==◌,
  if◌then◌else◌,
}
use ve_root.Menuconfig.Nodes.{Text, MenuNode, Tree, Conf}
use ve_root.Menuconfig.Values.{is_in_values}
use ve_root.Guiconfig.View.{Place, top_level, under, nowhere, Row, View, updated}

-- `on_disk` is no variable of the script: it is the configuration that was last loaded from a file
-- or written to one with all its values.
pub record Window : Type 0 where
  pub view : View
  pub open view use *
  pub conf : Conf
  pub cur_menu : MenuNode
  pub show_all : Bool
  pub single_menu : Bool
  pub conf_changed : Bool
  pub conf_filename : Text
  pub minconf_filename : Text
  pub on_disk : Conf

-- `waits`: an open dialog is not answered further. `raises`: an exception, with the window as it
-- then is. `exhausted`: a loop has used up its fuel, which stands for no behaviour of the script.
pub data Outcome {ℓ} (A : Type ℓ) : Type ℓ where
  waits : Outcome A
  raises : Window → Outcome A
  exhausted : Outcome A
  returns : A → Window → Outcome A

abbrev pub Gui {ℓ} : Type ℓ → Type ℓ
Gui A = Window → Outcome A

infixl 5 ◌>>=◌ ◌>>◌
abbrev pub ◌>>=◌ {ℓ κ} : {A : Type ℓ} {B : Type κ} → Gui A → (A → Gui B) → Gui B
◌>>=◌ m f w = elim (m w) [
  | waits ↦ waits
  | raises w' ↦ raises w'
  | exhausted ↦ exhausted
  | returns a w' ↦ f a w'
]

abbrev pub ◌>>◌ {ℓ κ} : {A : Type ℓ} {B : Type κ} → Gui A → Gui B → Gui B
m >> k = m >>= λ _. k

abbrev pub pure {ℓ} : {A : Type ℓ} → A → Gui A
pure a w = returns a w

abbrev pub modify : (Window → Window) → Gui (Unit {0})
modify f w = returns tt (f w)

abbrev pub with_rows : List Row → Window → Window
with_rows rows w = record w { view = record w.view { rows = rows } }

-- A result that needs fuel, as the new rows of the tree.
unfoldable pub set_rows : Option (List Row) → Gui (Unit {0})
set_rows none w = exhausted
set_rows (some rows) w = returns tt (with_rows rows w)

-- Whether an item is open, after it was opened or closed.
abbrev pub set_open : ℕ → Bool → Window → Window
set_open i b w = record w {
  view = record w.view { is_open = λ j. if j == i then b else w.is_open j };
}

-- The parent of an item, if it hangs at one.
parent_item : ℕ → List Row → Option ℕ
parent_item i [] = none
parent_item i (r ∷ rs) = if r.id == i then item_of r.place else parent_item i rs
  where
    item_of : Place → Option ℕ
    item_of (under p) = some p
    item_of _ = none

-- The items that an item hangs below, on fuel: the number of items is enough.
unfoldable pub above : ℕ → ℕ → List Row → List ℕ
unfolding parent_item
above zero i rs = []
above (suc fuel) i rs = elim (parent_item i rs) [ none ↦ [] | some p ↦ p ∷ above fuel p rs ]

-- `_select()` in the main tree. `see()` opens the items that the item hangs below.
unfoldable pub select : ℕ → Window → Window
unfolding above
select i w = record w {
  view = record w.view {
    is_open = λ j. is_in_values j (above (length w.rows) i w.rows) || w.is_open j;
    focus = some i;
  };
}

-- `_loc_ref_item()` finds an item on the screen, and raises an `IndexError` in a tree without items.
-- `f` is what follows it.
unfoldable pub with_ref_item : Gui (Unit {0}) → Gui (Unit {0})
with_ref_item f w = ref_in w.rows f w
  where
    ref_in : List Row → Gui (Unit {0}) → Gui (Unit {0})
    ref_in [] f w = raises w
    ref_in (r ∷ rs) f w = f w

module _ (tree : Tree) where
  -- `_update_tree()`, which keeps the selection and the focus.
  unfoldable pub update_tree : Gui (Unit {0})
  unfolding set_rows updated
  update_tree w = set_rows (updated tree w.conf w.show_all w.single_menu w.cur_menu w.is_open) w
