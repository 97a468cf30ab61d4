-- ===== src/Menuconfig/Search.antt =====
-- The jump-to dialog (menuconfig.py): the search, the list of matches and the keys. With no match
-- the index of the selected row may be any integer, as it is in the source.
pub mod Row
use ve_root.Base.{
  ℕ, zero, suc, ◌+◌, ◌-◌, Bool, true, false, not, ◌&&◌, ◌||◌, Option, none, some, List, [], ◌∷◌,
  ◌++◌, length, get_elem?, ltb, leb, ◌==◌, if◌then◌else◌, ℤ, pos, negsuc, leb_ℤ, sub_ℕ, suc_ℤ,
  pred_ℤ, text_eq,
}
use ve_root.Menuconfig.Nodes.{Item, Prompt, MenuNode, Tree, Text}
use ve_root.Menuconfig.Keys.{
  Key, char, key_up, key_down, key_home, key_end, key_npage, key_ppage, key_resize,
}
use ve_root.Menuconfig.Edit.{EditBox, scroll_offset, edit_text}
use ve_root.Menuconfig.State.{max_scroll, pg_jump}
use ve_root.Menuconfig.Session.{World}

pub record Search : Type 0 where
  pub box : EditBox
  pub matches : List MenuNode
  pub sel_node_i : ℤ
  pub scroll : ℕ
  pub height : ℕ

-- `len(_JUMP_TO_HELP_LINES)`.
abbrev jump_to_help_lines : ℕ
jump_to_help_lines = 5

-- `_resize_jump_to_dialog()`: the height of the list of matches, and its scroll.
pub matches_win_height : ℕ → ℕ
matches_win_height rows =
    if leb (1 + jump_to_help_lines + 4) rows then rows - jump_to_help_lines - 4 else 1

keep_in_view : ℤ → ℕ → ℕ → ℕ
keep_in_view (pos k) scroll h = if leb (scroll + h) k then k + 1 - h else scroll
keep_in_view (negsuc k) scroll h = scroll

pub resize_matches : ℕ → Search → Search
unfolding matches_win_height keep_in_view
resize_matches rows b =
    let h = matches_win_height rows in
    record b { height = h; scroll = keep_in_view b.sel_node_i b.scroll h }

abbrev eq_ℤ : ℤ → ℤ → Bool
eq_ℤ a b = leb_ℤ a b && leb_ℤ b a

pub select_next_match : Search → Search
select_next_match b = if eq_ℤ b.sel_node_i (sub_ℕ (length b.matches) 1) then b else record b {
  sel_node_i = suc_ℤ b.sel_node_i;
  scroll =
      if leb_ℤ (sub_ℕ (b.scroll + b.height) scroll_offset) (suc_ℤ b.sel_node_i)
        && ltb b.scroll (max_scroll (length b.matches) b.height)
      then b.scroll + 1
      else b.scroll;
}

pub select_prev_match : Search → Search
select_prev_match b = if eq_ℤ b.sel_node_i (pos 0) then b else record b {
  sel_node_i = pred_ℤ b.sel_node_i;
  scroll =
      if leb_ℤ (pos (b.scroll + scroll_offset)) (pred_ℤ b.sel_node_i)
      then b.scroll
      else b.scroll - 1;
}

pub repeat_match : ℕ → (Search → Search) → Search → Search
repeat_match zero f b = b
repeat_match (suc n) f b = repeat_match n f (f b)

-- What the dialog does with a key.
pub data SearchStep : Type 0 where
  goes_on : Search → SearchStep
  resized : ℕ → ℕ → SearchStep
  accepts : SearchStep
  cancels : SearchStep
  looks : SearchStep

module _ (world : World) where
  unfoldable pub prompt_matches : (Text → Bool) → Option Prompt → Bool
  prompt_matches search none = false
  prompt_matches search (some p) = search (world.lower_text p.text)

  unfoldable pub name_matches : (Text → Bool) → Option Text → Bool
  name_matches search none = false
  name_matches search (some []) = false
  name_matches search (some (c ∷ cs)) = search (world.lower_text (c ∷ cs))

  unfoldable pub sc_matches : List (Text → Bool) → MenuNode → Bool
  unfolding prompt_matches name_matches
  sc_matches [] n = true
  sc_matches (r ∷ rs) n =
      (name_matches r (world.sc_name n.item) || prompt_matches r n.prompt) && sc_matches rs n

  -- Menus and comments have a prompt.
  unfoldable pub mc_matches : List (Text → Bool) → MenuNode → Bool
  unfolding prompt_matches
  mc_matches [] n = true
  mc_matches (r ∷ rs) n = prompt_matches r n.prompt && mc_matches rs n

  unfoldable pub keep_matching : (MenuNode → Bool) → List MenuNode → List MenuNode
  keep_matching p [] = []
  keep_matching p (n ∷ ns) = if p n then n ∷ keep_matching p ns else keep_matching p ns

  unfoldable pub compile_all : List Text → Option (List (Text → Bool))
  compile_all [] = some []
  compile_all (t ∷ ts) = elim (world.compile t) [
    | none ↦ none
    | some r ↦ elim (compile_all ts) [ none ↦ none | some rs ↦ some (r ∷ rs) ]
  ]

  -- The nodes that match the search text; none for a bad regular expression.
  unfoldable pub find_matches : Text → List MenuNode
  unfolding compile_all sc_matches mc_matches keep_matching
  find_matches s = elim (compile_all (world.split (world.lower_text s))) [
    | none ↦ []
    | some rs ↦
        keep_matching (sc_matches rs) world.sorted_sc_nodes
        ++ keep_matching (mc_matches rs) world.sorted_menu_comment_nodes
  ]

  -- A new search text starts at the top of the new matches.
  pub edited : EditBox → Search → Search
  unfolding find_matches
  edited box b =
      if text_eq box.s b.box.s
      then record b { box = box }
      else record b { box = box; matches = find_matches box.s; sel_node_i = pos 0; scroll = 0 }

  pub open_search : ℕ → Search
  unfolding find_matches matches_win_height
  open_search rows = record {
    box = record { s = []; i = 0; hscroll = 0 };
    matches = find_matches [];
    sel_node_i = pos 0;
    scroll = 0;
    height = matches_win_height rows;
  }

  type_key : Key → ℕ → Search → SearchStep
  type_key k cols b =
      goes_on
        (edited (edit_text world.is_word world.is_space world.erase_char k (cols - 2) b.box) b)

  search_char : ℕ → ℕ → Search → SearchStep
  unfolding type_key
  search_char c cols b =
      if c == 0x0A
      then accepts
      else if c == 0x1B
      then cancels
      else if c == 0x06
      then looks
      else if c == 0x04
      then goes_on (repeat_match pg_jump select_next_match b)
      else if c == 0
      then goes_on b
      else type_key (char c) cols b

  pub search_key : Key → ℕ → Search → SearchStep
  unfolding search_char
  search_key (char c) cols b = search_char c cols b
  search_key (key_resize rows cols') cols b = resized rows cols'
  search_key key_down cols b = goes_on (select_next_match b)
  search_key key_up cols b = goes_on (select_prev_match b)
  search_key key_npage cols b = goes_on (repeat_match pg_jump select_next_match b)
  search_key key_ppage cols b = goes_on (repeat_match pg_jump select_prev_match b)
  search_key key_end cols b = goes_on (record b {
    sel_node_i = sub_ℕ (length b.matches) 1;
    scroll = max_scroll (length b.matches) b.height;
  })
  search_key key_home cols b = goes_on (record b { sel_node_i = pos 0; scroll = 0 })
  search_key k cols b = type_key k cols b

-- `lst[i]`, where a negative index counts from the end; `none` is an `IndexError`.
pub at : List MenuNode → ℤ → Option MenuNode
at ns (pos k) = get_elem? ns k
at ns (negsuc k) = if ltb k (length ns) then get_elem? ns (length ns - suc k) else none
