-- ===== src/Menuconfig/Fullscreen.antt =====
-- The fullscreen dialogs of menuconfig.py: `_info_dialog()` and `_jump_to_dialog()`.
pub mod Sound
use ve_root.Base.{
  ℕ, zero, suc, ◌+◌, ◌-◌, min, Bool, true, false, not, ◌&&◌, ◌||◌, Option, none, some, List, [],
  ◌∷◌, length, ltb, leb, ◌==◌, if◌then◌else◌,
}
use ve_root.Menuconfig.Nodes.{MenuNode, Tree}
use ve_root.Menuconfig.Keys.{
  Key, char, key_left, key_right, key_up, key_down, key_home, key_end, key_npage, key_ppage,
  key_backspace, key_resize, is_erase,
}
use ve_root.Menuconfig.State.{
  State, max_scroll, pg_jump, select_next_menu_entry, select_prev_menu_entry,
  select_last_menu_entry, select_first_menu_entry, page_down, page_up, resize_main,
}
use ve_root.Menuconfig.Navigate.{enter_menu, leave_menu, jump_to, toggle_show_all}
use ve_root.Menuconfig.Search.{
  Search, SearchStep, goes_on, resized, accepts, cancels, looks, open_search, resize_matches,
  search_key, at,
}
use ve_root.Menuconfig.Values.{selected_node, set_sel_node_tri_val}
use ve_root.Menuconfig.Change.{change_node}
use ve_root.Menuconfig.Dialogs.{Exit, quit_dialog, load_dialog, save_config, save_min_config}
use ve_root.Menuconfig.Session.{
  World, Session, Outcome, waits, raises, exhausted, returns, Ui, ◌>>=◌, ◌>>◌, pure, get, modify,
  try_ui, resize,
}

-- A new size of the terminal, which the main display does not follow yet.
abbrev pub new_size : ℕ → ℕ → Session → Session
new_size rows cols s = record s { rows = rows; cols = cols }

-- `_resize_info_dialog()`: `len(_INFO_HELP_LINES)` is 1.
text_win_height : ℕ → ℕ
text_win_height rows = if leb (1 + 1 + 2) rows then rows - 1 - 2 else 1

-- What the information dialog does with a key, at a scroll and a height, for some lines.
data InfoStep : Type 0 where
  scrolls : ℕ → InfoStep
  resizes : ℕ → ℕ → InfoStep
  slash : InfoStep
  leaves : InfoStep

down : ℕ → ℕ → ℕ → ℕ
down lines height scroll = if ltb scroll (max_scroll lines height) then scroll + 1 else scroll

info_char : Option ℕ → ℕ → ℕ → ℕ → ℕ → InfoStep
unfolding down
info_char erase lines height scroll c =
    if c == b'j' || c == b'J'
    then scrolls (down lines height scroll)
    else if c == 0x04
    then scrolls (min (scroll + pg_jump) (max_scroll lines height))
    else if c == 0x15
    then scrolls (scroll - pg_jump)
    else if c == b'G'
    then scrolls (max_scroll lines height)
    else if c == b'g'
    then scrolls 0
    else if c == b'k' || c == b'K'
    then scrolls (scroll - 1)
    else if c == b'/'
    then slash
    else if is_erase erase c
        || (c == 0x1B || (c == b'q' || (c == b'Q' || (c == b'h' || c == b'H'))))
    then leaves
    else scrolls scroll

info_key : Option ℕ → ℕ → ℕ → ℕ → Key → InfoStep
unfolding info_char
info_key erase lines height scroll (char c) = info_char erase lines height scroll c
info_key erase lines height scroll (key_resize rows cols) = resizes rows cols
info_key erase lines height scroll key_down = scrolls (down lines height scroll)
info_key erase lines height scroll key_npage =
    scrolls (min (scroll + pg_jump) (max_scroll lines height))
info_key erase lines height scroll key_ppage = scrolls (scroll - pg_jump)
info_key erase lines height scroll key_end = scrolls (max_scroll lines height)
info_key erase lines height scroll key_home = scrolls 0
info_key erase lines height scroll key_up = scrolls (scroll - 1)
info_key erase lines height scroll key_left = leaves
info_key erase lines height scroll key_backspace = leaves
info_key erase lines height scroll _ = scrolls scroll

module _ (world : World) (tree : Tree) where
  -- After the key `/`: the dialog is left if the user jumped to a node. `again` is the loop.
  after_search : (ℕ → ℕ → Ui (Unit {0})) → ℕ → Bool → Ui (Unit {0})
  unfolding text_win_height
  after_search again scroll true s ks = returns tt s ks
  after_search again scroll false s ks = again (text_win_height s.rows) scroll s ks

  info_step : Ui Bool → (ℕ → ℕ → Ui (Unit {0})) → ℕ → ℕ → InfoStep → Ui (Unit {0})
  unfolding after_search
  info_step search again height scroll (scrolls scroll') s ks = again height scroll' s ks
  info_step search again height scroll (resizes rows cols) s ks =
      again (text_win_height rows) scroll (new_size rows cols s) ks
  info_step search again height scroll leaves s ks = returns tt s ks
  info_step search again height scroll slash s ks = (search >>= after_search again scroll) s ks

  -- The loop of `_info_dialog()`, on fuel. `search` is what the key `/` does.
  info_loop : Ui Bool → ℕ → ℕ → ℕ → ℕ → Ui (Unit {0})
  unfolding info_step
  info_loop search zero lines height scroll s ks = exhausted
  info_loop search (suc fuel) lines height scroll s [] = waits
  info_loop search (suc fuel) lines height scroll s (k ∷ ks) =
      info_step search (info_loop search fuel lines) height scroll
        (info_key world.erase_char lines height scroll k) s ks

  info_with : Ui Bool → MenuNode → Ui (Unit {0})
  unfolding info_loop text_win_height
  info_with search n s ks =
      info_loop search (suc (length ks)) (world.info_lines s.conf n) (text_win_height s.rows) 0 s ks

  -- `_info_dialog(node, True)`: the key `/` only returns.
  pub info_from_jump : MenuNode → Ui (Unit {0})
  unfolding info_with
  info_from_jump n = info_with (pure true) n

  -- Enter: jumps to the selected match, if there is one.
  accept_at : Option MenuNode → Ui Bool
  accept_at none s ks = raises
  accept_at (some n) s ks = (try_ui (jump_to tree n) >>= λ _. pure true) s ks

  accept : Search → Ui Bool
  unfolding accept_at
  accept b s ks = accept_at (at b.matches b.sel_node_i) s ks

  look_at : Option MenuNode → Ui (Unit {0})
  look_at none s ks = raises
  look_at (some n) s ks = info_from_jump n s ks

  -- Ctrl-F: information on the selected match.
  look : Search → Ui (Unit {0})
  unfolding look_at
  look b s ks = look_at (at b.matches b.sel_node_i) s ks

  look_back : (Search → Ui Bool) → Search → Ui Bool
  unfolding look
  look_back again b s ks = (look b >>= λ _ s' ks'. again (resize_matches s'.rows b) s' ks') s ks

  search_step : (Search → Ui Bool) → Search → SearchStep → Ui Bool
  unfolding accept look_back
  search_step again b (goes_on b') s ks = again b' s ks
  search_step again b (resized rows cols) s ks =
      again (resize_matches rows b) (new_size rows cols s) ks
  search_step again b cancels s ks = returns false s ks
  search_step again b accepts s ks =
      if ltb 0 (length b.matches) then accept b s ks else again b s ks
  search_step again b looks s ks =
      if ltb 0 (length b.matches) then look_back again b s ks else again b s ks

  -- The loop of `_jump_to_dialog()`, on fuel.
  jump_loop : ℕ → Search → Ui Bool
  unfolding search_step
  jump_loop zero b s ks = exhausted
  jump_loop (suc fuel) b s [] = waits
  jump_loop (suc fuel) b s (k ∷ ks) =
      search_step (jump_loop fuel) b (search_key world k s.cols b) s ks

  -- True if the user jumped to a node.
  pub jump_to_dialog : Ui Bool
  unfolding jump_loop
  jump_to_dialog s ks = jump_loop (suc (length ks)) (open_search world s.rows) s ks

  -- `_info_dialog(node, False)`
  pub info_dialog : MenuNode → Ui (Unit {0})
  unfolding info_with
  info_dialog n = info_with jump_to_dialog n
