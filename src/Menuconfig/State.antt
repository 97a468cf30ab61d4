-- ===== src/Menuconfig/State.antt =====
-- The global variables of menuconfig.py that the main display depends on, and the operations that
-- move the cursor and the scroll. Rows and indices are numbers from 0 on. An integer difference of
-- the source is compared by adding, so that nothing is lost where it would be negative.
pub mod InView
use ve_root.Base.{
  ℕ, zero, suc, ◌+◌, ◌-◌, ◌/◌, ◌≤◌, ◌<◌, min, max, Bool, true, false, not, ◌&&◌, Option, none, some,
  List, [], ◌∷◌, length, ltb, leb, ◌==◌, if◌then◌else◌,
}
use ve_root.Menuconfig.Nodes.{MenuNode, Conf}
use ve_root.Menuconfig.Edit.{scroll_offset}

-- `parent_screen_rows` has its last element first. `height` is `_height(_menu_win)`.
pub record State : Type 0 where
  pub conf : Conf
  pub cur_menu : MenuNode
  pub shown : List MenuNode
  pub sel_node_i : ℕ
  pub menu_scroll : ℕ
  pub parent_screen_rows : List ℕ
  pub height : ℕ
  pub show_help : Bool
  pub show_name : Bool
  pub show_all : Bool
  pub conf_changed : Bool

-- `_max_scroll()`, on the length of the list and the height of the window.
abbrev pub max_scroll : ℕ → ℕ → ℕ
max_scroll len height = len - height

unfoldable pub select_next_menu_entry : State → State
select_next_menu_entry s =
    if ltb (s.sel_node_i + 1) (length s.shown)
    then record s {
      sel_node_i = s.sel_node_i + 1;
      menu_scroll =
          if leb (s.menu_scroll + s.height) (s.sel_node_i + 1 + scroll_offset)
            && ltb s.menu_scroll (max_scroll (length s.shown) s.height)
          then s.menu_scroll + 1
          else s.menu_scroll;
    }
    else s

unfoldable pub select_prev_menu_entry : State → State
select_prev_menu_entry s =
    if ltb 0 s.sel_node_i
    then record s {
      sel_node_i = s.sel_node_i - 1;
      menu_scroll =
          if ltb (s.sel_node_i - 1) (s.menu_scroll + scroll_offset)
          then s.menu_scroll - 1
          else s.menu_scroll;
    }
    else s

unfoldable pub select_last_menu_entry : State → State
select_last_menu_entry s = record s {
  sel_node_i = length s.shown - 1;
  menu_scroll = max_scroll (length s.shown) s.height;
}

unfoldable pub select_first_menu_entry : State → State
select_first_menu_entry s = record s { sel_node_i = 0; menu_scroll = 0 }

-- `_PG_JUMP`, and the two loops over it.
abbrev pub pg_jump : ℕ
pg_jump = 6

unfoldable pub repeat : ℕ → (State → State) → State → State
repeat zero f s = s
repeat (suc n) f s = repeat n f (f s)

unfoldable pub page_down : State → State
unfolding repeat
page_down s = repeat pg_jump select_next_menu_entry s

unfoldable pub page_up : State → State
unfolding repeat
page_up s = repeat pg_jump select_prev_menu_entry s

unfoldable pub center_vertically : State → State
center_vertically s = record s {
  menu_scroll = min (s.sel_node_i - s.height / 2) (max_scroll (length s.shown) s.height);
}

-- `_SHOW_HELP_HEIGHT` and `len(_MAIN_HELP_LINES)`.
abbrev pub show_help_height : ℕ
show_help_height = 8

abbrev pub main_help_lines : ℕ
main_help_lines = 4

pub help_win_height : Bool → ℕ
help_win_height show_help = if show_help then show_help_height else main_help_lines

-- The height that `_resize_main()` gives the menu window: at least one row.
pub menu_win_height : ℕ → Bool → ℕ
unfolding help_win_height
menu_win_height screen_height show_help =
    if leb (1 + help_win_height show_help + 3) screen_height
    then screen_height - help_win_height show_help - 3
    else 1

unfoldable pub resize_main : ℕ → State → State
unfolding menu_win_height
resize_main screen_height s =
    let h = menu_win_height screen_height s.show_help in
    record s {
      height = h;
      menu_scroll =
          if leb (s.menu_scroll + h) s.sel_node_i then s.sel_node_i + 1 - h else s.menu_scroll;
    }
