-- ===== src/Guiconfig/Main.antt =====
-- The script as a whole (guiconfig.py): `menuconfig()` up to the main loop of Tk, and that loop,
-- with the callbacks of the widgets as its steps.
pub mod Sound
pub mod Start
pub mod Children
use ve_root.Base.{
  ℕ, Bool, true, false, not, ◌&&◌, ◌||◌, Option, none, some, List, [], ◌∷◌, ◌==◌, if◌then◌else◌,
}
use ve_root.Menuconfig.Nodes.{Text, MenuNode, Tree, Conf}
use ve_root.Menuconfig.Values.{changeable, needs_save}
use ve_root.Menuconfig.Session.{World}
use ve_root.Menuconfig.Dialogs.{Exit}
use ve_root.Guiconfig.Shown.{shown_menu_nodes}
use ve_root.Guiconfig.View.{Place, top_level, under, Row, View, get_children}
use ve_root.Guiconfig.Window.{
  Window, Outcome, waits, raises, exhausted, returns, Gui, ◌>>=◌, ◌>>◌, pure, modify, set_open,
  select, update_tree,
}
use ve_root.Guiconfig.Files.{is_empty, save, save_as, save_minimal, open_config, on_quit}
use ve_root.Guiconfig.Change.{change_node, tree_set_val}
use ve_root.Guiconfig.Moves.{
  select_first, toggle_showall, toggle_tree_mode, enter_menu_and_select_first, leave_menu,
  jump_to_selected, tree_toggle_open, tree_open,
}

-- What the user does, with the answers to the dialogs that this opens. `focus_on`, `opens` and
-- `closes` are what Tk does by itself with the mouse and the arrow keys. `change_match`,
-- `set_match` and `jump` are made in the jump-to dialog, and the items of `showall` and
-- `tree_mode` are those that `_loc_ref_item()` finds on the screen.
pub data Callback : Type 0 where
  save_now left right : Callback
  save_file_as save_minimal_as : List Text → Callback
  open_file : Bool → List Text → Callback
  enter_key space_key : List (Option Text) → Callback
  click : ℕ → List (Option Text) → Callback
  tri_key : ℕ → Callback
  focus_on opens closes showall tree_mode jump : ℕ → Callback
  change_match : ℕ → List (Option Text) → Callback
  set_match : ℕ → ℕ → Callback

-- Only `_on_quit()` ends the script.
pub data Event : Type 0 where
  quit : List (Option Bool) → Event
  call : Callback → Event

abbrev set_focus : ℕ → Window → Window
set_focus i w = record w { view = record w.view { focus = some i } }

-- A lookup in `_id_to_node`.
unfoldable pub find : List MenuNode → ℕ → Option MenuNode
find [] i = none
find (n ∷ ns) i = if n.id == i then some n else find ns i

pub has_children : ℕ → List Row → Bool
has_children i rs = elim (get_children (under i) rs) [ [] ↦ false | _ ∷ _ ↦ true ]

module _ (world : World) (tree : Tree) (nodes : List MenuNode) where
  on_found : Option MenuNode → (MenuNode → Gui (Unit {0})) → Gui (Unit {0})
  on_found none f w = raises w
  on_found (some n) f w = f n w

  pub on_node : ℕ → (MenuNode → Gui (Unit {0})) → Gui (Unit {0})
  unfolding on_found find
  on_node i f = on_found (find nodes i) f

  on_item : Option ℕ → (MenuNode → Gui (Unit {0})) → Gui (Unit {0})
  unfolding on_node
  on_item none f w = returns tt w
  on_item (some i) f w = on_node i f w

  -- The node of the item with the focus, if there is one.
  on_focus : (MenuNode → Gui (Unit {0})) → Gui (Unit {0})
  unfolding on_item
  on_focus f w = on_item w.focus f w

  -- `_single_menu_mode_menu()` in the main tree.
  single_menu_mode_menu : MenuNode → Window → Bool
  unfolding shown_menu_nodes
  single_menu_mode_menu n w =
      w.single_menu && (n.is_menuconfig && not (is_empty (shown_menu_nodes w.conf w.show_all n)))

  -- `_tree_enter()` on the node of the item with the focus.
  enter_node : List (Option Text) → MenuNode → Gui (Unit {0})
  unfolding has_children single_menu_mode_menu
  enter_node answers n w =
      if has_children n.id w.rows
      then tree_toggle_open tree n w
      else if single_menu_mode_menu n w
      then enter_menu_and_select_first tree n w
      else change_node world tree n answers w

  -- `_tree_toggle()`
  toggle_node : List (Option Text) → MenuNode → Gui (Unit {0})
  unfolding has_children single_menu_mode_menu
  toggle_node answers n w =
      if changeable world tree w.conf n.attrs
      then change_node world tree n answers w
      else if single_menu_mode_menu n w
      then enter_menu_and_select_first tree n w
      else if has_children n.id w.rows
      then tree_toggle_open tree n w
      else returns tt w

  -- `_tree_left_key()`
  left_key : Gui (Unit {0})
  unfolding leave_menu
  left_key w = if w.single_menu then leave_menu tree w else returns tt w

  -- `_tree_right_key()`
  right_node : MenuNode → Gui (Unit {0})
  unfolding single_menu_mode_menu
  right_node n w =
      if single_menu_mode_menu n w then enter_menu_and_select_first tree n w else returns tt w

  -- `_tree_click()` on the image of an item.
  click_node : List (Option Text) → MenuNode → Gui (Unit {0})
  unfolding select
  click_node answers n w = change_node world tree n answers (select n.id w)

  -- Tk opens an item that has children, with the event that the script handles.
  open_node : MenuNode → Gui (Unit {0})
  open_node n w =
      if has_children n.id w.rows
      then ((λ w. tree_open tree n (set_focus n.id w)) >>= λ _. modify (set_open n.id true)) w
      else returns tt w

  -- The item on the screen that `_do_tree_mode()` goes by is an item of the tree.
  tree_mode_at : Option MenuNode → Gui (Unit {0})
  tree_mode_at none w = returns tt w
  tree_mode_at (some n) w = toggle_tree_mode tree n w

  -- The callbacks that do not end the script.
  callback : Callback → Gui (Unit {0})
  unfolding on_focus enter_node toggle_node left_key right_node click_node open_node tree_mode_at
      find
  callback save_now = save world
  callback (save_file_as answers) = save_as world answers
  callback (save_minimal_as answers) = save_minimal world answers
  callback (open_file anyway answers) = open_config world tree anyway answers
  callback (showall ref) = toggle_showall tree ref
  callback left = left_key
  callback right = on_focus right_node
  callback (enter_key answers) = on_focus (enter_node answers)
  callback (space_key answers) = on_focus (toggle_node answers)
  callback (click i answers) = on_node i (click_node answers)
  callback (tri_key v) = on_focus (tree_set_val world tree v)
  callback (focus_on i) = modify (set_focus i)
  callback (opens i) = on_node i open_node
  callback (closes i) = modify (set_open i false)
  callback (tree_mode i) = tree_mode_at (find nodes i)
  callback (jump i) = on_node i (jump_to_selected tree)
  callback (change_match i answers) = on_node i λ n. change_node world tree n answers
  callback (set_match i v) = on_node i (tree_set_val world tree v)

  handle : Event → Gui (Option Exit)
  unfolding callback
  handle (quit answers) = on_quit world answers
  handle (call c) = callback c >>= λ _. pure none

  -- The main loop of Tk. It waits when no event is left.
  unfoldable pub mainloop : List Event → Gui Exit
  unfolding handle
  mainloop [] w = waits
  mainloop (e ∷ es) w = elim (handle e w) [
    | waits ↦ waits
    | raises w' ↦ mainloop es w'
    | exhausted ↦ exhausted
    | returns r w' ↦ elim r [ none ↦ mainloop es w' | some x ↦ returns x w' ]
  ]

module _ (world : World) (tree : Tree) where
  -- The window before the first update, `loaded` being the values after `load_config()`, and
  -- `exists` whether there is a file.
  pub first_window : (exists : Bool) → Conf → (filename minconf_filename : Text) → Window
  unfolding needs_save
  first_window exists loaded filename minconf_filename = record {
    view = record { rows = []; is_open = λ _. false; focus = none };
    conf = loaded;
    cur_menu = tree.top_node;
    show_all = false;
    single_menu = false;
    conf_changed = not exists || needs_save world tree loaded;
    conf_filename = filename;
    minconf_filename = minconf_filename;
    on_disk = loaded;
  }

  top_is_empty : Window → Bool
  unfolding shown_menu_nodes
  top_is_empty w = is_empty (shown_menu_nodes w.conf w.show_all tree.top_node)

  show_window : Gui Bool
  unfolding update_tree
  show_window = update_tree tree >>= λ _.
      (λ w. select_first (get_children top_level w.rows) w) >>= λ _. pure true

  -- `menuconfig()` up to the main loop; false if it ends with the error "Empty configuration".
  unfoldable pub start : Gui Bool
  unfolding top_is_empty show_window
  start w =
      if top_is_empty w
      then (let w' = record w { show_all = true } in
          if top_is_empty w' then returns false w' else show_window w')
      else show_window w
