-- ===== src/Menuconfig/Main.antt =====
-- The main loop of menuconfig.py, `_menuconfig()`: the keys of the main display.
pub mod Safe
pub mod Keeps
pub mod Sound
use ve_root.Base.{
  ℕ, zero, suc, ◌+◌, ◌-◌, min, Bool, true, false, not, ◌&&◌, ◌||◌, Option, none, some, List, [],
  ◌∷◌, length, ltb, leb, ◌==◌, if◌then◌else◌,
}
use ve_root.Menuconfig.Nodes.{MenuNode, Tree}
use ve_root.Menuconfig.Keys.{
  Key, char, key_left, key_right, key_up, key_down, key_home, key_end, key_npage, key_ppage,
  key_backspace, key_resize, is_erase,
}
use ve_root.Menuconfig.State.{
  State, max_scroll, pg_jump, select_next_menu_entry, select_prev_menu_entry,
  select_last_menu_entry, select_first_menu_entry, page_down, page_up, resize_main,
}
use ve_root.Menuconfig.Navigate.{enter_menu, leave_menu, jump_to, toggle_show_all}
use ve_root.Menuconfig.Search.{
  Search, SearchStep, goes_on, resized, accepts, cancels, looks, open_search, resize_matches,
  search_key, at,
}
use ve_root.Menuconfig.Values.{selected_node, set_sel_node_tri_val}
use ve_root.Menuconfig.Change.{change_node}
use ve_root.Menuconfig.Dialogs.{Exit, quit_dialog, load_dialog, save_config, save_min_config}
use ve_root.Menuconfig.Session.{
  World, Session, Outcome, waits, raises, exhausted, returns, Ui, ◌>>=◌, ◌>>◌, pure, get, modify,
  try_ui, resize,
}
use ve_root.Menuconfig.Fullscreen.{jump_to_dialog, info_dialog}

module _ (world : World) (tree : Tree) where
  -- An operation on the menu alone.
  pub on_menu : (State → State) → Ui (Unit {0})
  on_menu f = modify λ s. record s { ui = f s.ui }

  -- `_enter_menu()`: false if the node cannot be entered.
  enter : MenuNode → Ui Bool
  enter n s ks =
      let (t, entered) = enter_menu tree n s.ui in returns entered (record s { ui = t }) ks

  -- The space key.
  pub toggle_or_enter : Ui (Unit {0})
  unfolding enter
  toggle_or_enter = do
    n ← selected_node
    changed ← change_node world tree n
    if changed then pure tt else (enter n >>= λ _. pure tt)

  -- The keys Right, Enter and L.
  pub enter_or_change : Ui (Unit {0})
  unfolding enter
  enter_or_change = do
    n ← selected_node
    entered ← enter n
    if entered then pure tt else (change_node world tree n >>= λ _. pure tt)

  pub resize_now : Ui (Unit {0})
  resize_now = modify λ s. record s { ui = resize_main s.rows s.ui }

  -- The key `/`.
  pub jump : Ui (Unit {0})
  unfolding resize_now
  jump = do jump_to_dialog world tree; resize_now

  -- The key `?`.
  pub inform : Ui (Unit {0})
  unfolding resize_now
  inform = do n ← selected_node; info_dialog world tree n; resize_now

  switch_help : State → State
  switch_help t = record t { show_help = not t.show_help }

  switch_name : State → State
  switch_name t = record t { show_name = not t.show_name }

  go_on : Ui (Unit {0}) → Ui (Option Exit)
  go_on m = m >>= λ _. pure none

  leave : Ui (Option Exit)
  unfolding go_on
  leave = go_on (try_ui (leave_menu tree))

  -- Escape leaves the program in the top menu.
  leave_or_quit : ℕ → Ui (Option Exit)
  unfolding leave
  leave_or_quit c s ks =
      if c == 0x1B && s.cur_menu.id == tree.top_node.id
      then quit_dialog world tree s ks
      else leave s ks

  -- The keys of `_menuconfig()` in its order, those that move first.
  move_char : ℕ → Option (State → State)
  move_char c =
      if c == b'j' || c == b'J'
      then some select_next_menu_entry
      else if c == b'k' || c == b'K'
      then some select_prev_menu_entry
      else if c == 0x04
      then some page_down
      else if c == 0x15
      then some page_up
      else if c == b'G'
      then some select_last_menu_entry
      else if c == b'g'
      then some select_first_menu_entry
      else none

  -- Those that change values or enter menus.
  change_char : ℕ → Option (Ui (Unit {0}))
  unfolding toggle_or_enter enter_or_change
  change_char c =
      if c == b' '
      then some toggle_or_enter
      else if c == 0x0A || (c == b'l' || c == b'L')
      then some enter_or_change
      else if c == b'n' || c == b'N'
      then some (set_sel_node_tri_val world tree 0)
      else if c == b'm' || c == b'M'
      then some (set_sel_node_tri_val world tree 1)
      else if c == b'y' || c == b'Y'
      then some (set_sel_node_tri_val world tree 2)
      else none

  is_leave : ℕ → Bool
  is_leave c = is_erase world.erase_char c || (c == 0x1B || (c == b'h' || c == b'H'))

  -- Those of files, the fullscreen dialogs and the modes.
  mode_char : ℕ → Option (Ui (Unit {0}))
  unfolding on_menu switch_help switch_name jump inform
  mode_char c =
      if c == b'o' || c == b'O'
      then some (load_dialog world tree)
      else if c == b's' || c == b'S'
      then some (save_config world)
      else if c == b'd' || c == b'D'
      then some (save_min_config world)
      else if c == b'/'
      then some jump
      else if c == b'?'
      then some inform
      else if c == b'f' || c == b'F'
      then some (on_menu switch_help >>= λ _. resize_now)
      else if c == b'c' || c == b'C'
      then some (on_menu switch_name)
      else if c == b'a' || c == b'A'
      then some (on_menu (toggle_show_all tree))
      else none

  after_leave : ℕ → Ui (Option Exit)
  unfolding mode_char go_on
  after_leave c = elim (mode_char c) [
    | some m ↦ go_on m
    | none ↦ if c == b'q' || c == b'Q' then quit_dialog world tree else pure none
  ]

  handle_char : ℕ → Ui (Option Exit)
  unfolding move_char change_char is_leave leave_or_quit after_leave
  handle_char c = elim (move_char c) [
    | some f ↦ go_on (on_menu f)
    | none ↦ elim (change_char c) [
      | some m ↦ go_on m
      | none ↦ if is_leave c then leave_or_quit c else after_leave c
    ]
  ]

  handle : Key → Ui (Option Exit)
  unfolding handle_char
  handle (key_resize rows cols) = go_on (modify (resize rows cols))
  handle (char c) = handle_char c
  handle key_down = go_on (on_menu select_next_menu_entry)
  handle key_up = go_on (on_menu select_prev_menu_entry)
  handle key_npage = go_on (on_menu page_down)
  handle key_ppage = go_on (on_menu page_up)
  handle key_end = go_on (on_menu select_last_menu_entry)
  handle key_home = go_on (on_menu select_first_menu_entry)
  handle key_right = go_on enter_or_change
  handle key_left = leave
  handle key_backspace = leave
  handle _ = pure none

  ended : Ui Exit → Option Exit → Ui Exit
  ended again (some e) s ks = returns e s ks
  ended again none s ks = again s ks

  -- `_menuconfig()`, on fuel: each round reads a key. It gives what is printed at the end.
  menuconfig_loop : ℕ → Ui Exit
  unfolding handle ended
  menuconfig_loop zero s ks = exhausted
  menuconfig_loop (suc fuel) s [] = waits
  menuconfig_loop (suc fuel) s (k ∷ ks) = (handle k >>= ended (menuconfig_loop fuel)) s ks

  unfoldable pub menuconfig : Ui Exit
  unfolding menuconfig_loop
  menuconfig s ks = menuconfig_loop (suc (length ks)) s ks
