-- ===== src/Menuconfig/State/InView.antt =====
-- The selected entry and the part of the menu that the window shows (menuconfig.py).
use ve_root.Base.{ℕ, zero, suc, ◌+◌, ◌≤◌, ◌<◌, ◌*◌, ◌≡◌, ◌⊎◌, length, arith}
use ve_root.Menuconfig.Edit.{scroll_offset}
use ve_root.Menuconfig.State.{
  State, select_next_menu_entry, select_prev_menu_entry, select_last_menu_entry,
  select_first_menu_entry, repeat, page_down, page_up, center_vertically, resize_main, max_scroll,
}

-- There is a selected entry, and it is drawn: its row is one of the window.
pub record InView (s : State) : Type 0 where
  pub selected : s.sel_node_i < length s.shown
  pub not_above : s.menu_scroll ≤ s.sel_node_i
  pub not_below : s.sel_node_i < s.menu_scroll + s.height

pub InView-height_pos : {s : State} → InView s → 0 < s.height
InView-height_pos v = omega arith

pub select_next-InView : (s : State) → InView s → InView (select_next_menu_entry s)
unfolding select_next_menu_entry
select_next-InView s v = ground arith

pub select_prev-InView : (s : State) → InView s → InView (select_prev_menu_entry s)
unfolding select_prev_menu_entry
select_prev-InView s v = ground arith

pub select_last-InView : (s : State) → InView s → InView (select_last_menu_entry s)
unfolding select_last_menu_entry
select_last-InView s v = ground arith

pub select_first-InView : (s : State) → InView s → InView (select_first_menu_entry s)
unfolding select_first_menu_entry
select_first-InView s v = ground arith

pub repeat-InView :
    (f : State → State)
    → ((s : State) → InView s → InView (f s))
    → (n : ℕ) (s : State) → InView s
    → InView (repeat n f s)
unfolding repeat
repeat-InView f keep zero s v = v
repeat-InView f keep (suc n) s v = repeat-InView f keep n (f s) (keep s v)

pub page_down-InView : (s : State) → InView s → InView (page_down s)
unfolding page_down
page_down-InView s v = repeat-InView select_next_menu_entry select_next-InView 6 s v

pub page_up-InView : (s : State) → InView s → InView (page_up s)
unfolding page_up
page_up-InView s v = repeat-InView select_prev_menu_entry select_prev-InView 6 s v

pub center_vertically-InView :
    (s : State) → s.sel_node_i < length s.shown → 0 < s.height → InView (center_vertically s)
unfolding center_vertically
center_vertically-InView s h p = ground arith

pub resize_main-InView : (h : ℕ) (s : State) → InView s → InView (resize_main h s)
unfolding resize_main
resize_main-InView h s v = ground arith

-- The cursor keeps its distance to the edges of the window, unless the list ends there.
pub record HasMargin (s : State) : Type 0 where
  pub above : (s.menu_scroll ≡ 0) ⊎ (s.menu_scroll + scroll_offset ≤ s.sel_node_i)
  pub below :
      (s.sel_node_i + scroll_offset < s.menu_scroll + s.height)
      ⊎ (max_scroll (length s.shown) s.height ≤ s.menu_scroll)

module _ (s : State) (tall : 2 * scroll_offset < s.height) where
  next-HasMargin : HasMargin s → HasMargin (select_next_menu_entry s)
  unfolding select_next_menu_entry
  next-HasMargin m = ground arith

  prev-HasMargin : HasMargin s → HasMargin (select_prev_menu_entry s)
  unfolding select_prev_menu_entry
  prev-HasMargin m = ground arith

  -- In a window of more than ten rows, the arrow keys keep the cursor five rows off both edges of
  -- the window, unless the list begins or ends there.
  pub arrow_keys-HasMargin :
      HasMargin s → HasMargin (select_next_menu_entry s) × HasMargin (select_prev_menu_entry s)
  arrow_keys-HasMargin m = (next-HasMargin m, prev-HasMargin m)
