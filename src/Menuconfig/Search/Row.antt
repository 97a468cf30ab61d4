-- ===== src/Menuconfig/Search/Row.antt =====
-- The selected row of the jump-to dialog (menuconfig.py).
use ve_root.Base.{
  ℕ, zero, suc, ◌+◌, ◌≤◌, ◌<◌, ◌≡◌, some, List, length, ◌==◌, ℤ, pos, negsuc, arith, Bool-cases,
  inl, inr, get_elem?-lt, text_eq,
}
use ve_root.Menuconfig.Nodes.{MenuNode}
use ve_root.Menuconfig.Keys.{
  Key, char, key_up, key_down, key_home, key_end, key_npage, key_ppage, key_resize,
}
use ve_root.Menuconfig.Edit.{EditBox}
use ve_root.Menuconfig.Session.{World}
use ve_root.Menuconfig.Search.{
  Search, resize_matches, matches_win_height, select_next_match, select_prev_match, repeat_match,
  edited, open_search, search_char, search_key, SearchStep, goes_on, resized, accepts, looks,
  cancels, type_key, at,
}

-- A row of the list that the window shows.
abbrev pub IsRow : ℤ → ℕ → ℕ → ℕ → Type 0
IsRow (pos k) len scroll h = (k < len) × (scroll ≤ k) × (k < scroll + h)
IsRow (negsuc k) len scroll h = ⊥

-- If there are matches, one of them is selected, and it is drawn.
pub record HasRow (b : Search) : Type 0 where
  pub height_pos : 0 < b.height
  pub row : 0 < length b.matches → IsRow b.sel_node_i (length b.matches) b.scroll b.height

next-HasRow : (b : Search) → HasRow b → HasRow (select_next_match b)
unfolding select_next_match
next-HasRow b v = ground arith

prev-HasRow : (b : Search) → HasRow b → HasRow (select_prev_match b)
unfolding select_prev_match
prev-HasRow b v = ground arith

pub resize_matches-HasRow : (rows : ℕ) (b : Search) → HasRow b → HasRow (resize_matches rows b)
unfolding resize_matches
resize_matches-HasRow rows b v = ground arith

matches_win_height-pos : (rows : ℕ) → 0 < matches_win_height rows
unfolding matches_win_height
matches_win_height-pos rows = ground arith

repeat-HasRow :
    (f : Search → Search)
    → ((b : Search) → HasRow b → HasRow (f b))
    → (n : ℕ) (b : Search) → HasRow b
    → HasRow (repeat_match n f b)
unfolding repeat_match
repeat-HasRow f keep zero b v = v
repeat-HasRow f keep (suc n) b v = repeat-HasRow f keep n (f b) (keep b v)

-- What the dialog shows when it goes on from `b` after a key: after a resize, after Enter without a
-- match, and after Ctrl-F, which comes back to a terminal of any height.
abbrev pub StepHasRow : Search → SearchStep → Type 0
StepHasRow b (goes_on b') = HasRow b'
StepHasRow b (resized rows cols) = HasRow (resize_matches rows b)
StepHasRow b accepts = HasRow b
StepHasRow b looks = HasRow b × ((rows : ℕ) → HasRow (resize_matches rows b))
StepHasRow b cancels = Unit

module _ (world : World) where
  edited-HasRow : (box : EditBox) (b : Search) → HasRow b → HasRow (edited world box b)
  unfolding edited
  edited-HasRow box b v = elim (Bool-cases (text_eq box.s b.box.s)) [
    | inl e ↦ rw e (record { height_pos = v.height_pos; row = v.row })
    | inr e ↦ rw e (record {
      height_pos = v.height_pos;
      row = λ some_match. (some_match, omega arith, omega arith);
    })
  ]

  pub open_search-HasRow : (rows : ℕ) → HasRow (open_search world rows)
  unfolding open_search
  open_search-HasRow rows = record {
    height_pos = matches_win_height-pos rows;
    row = λ some_match. (some_match, omega arith, omega (arith, matches_win_height-pos rows));
  }

  search_char-HasRow :
      (c cols : ℕ) (b : Search) → HasRow b → StepHasRow b (search_char world c cols b)
  unfolding search_char type_key
  search_char-HasRow c cols b v = elim (Bool-cases (c == 0x0A)) [
    | inl e ↦ rw e v
    | inr e₁ ↦ elim (Bool-cases (c == 0x1B)) [
      | inl e ↦ rw (e₁, e) tt
      | inr e₂ ↦ elim (Bool-cases (c == 0x06)) [
        | inl e ↦ rw (e₁, e₂, e) (v, λ rows. resize_matches-HasRow rows b v)
        | inr e₃ ↦ elim (Bool-cases (c == 0x04)) [
          | inl e ↦ rw (e₁, e₂, e₃, e) (repeat-HasRow select_next_match next-HasRow 6 b v)
          | inr e₄ ↦ elim (Bool-cases (c == 0)) [
            | inl e ↦ rw (e₁, e₂, e₃, e₄, e) v
            | inr e₅ ↦ rw (e₁, e₂, e₃, e₄, e₅) (edited-HasRow _ b v)
          ]
        ]
      ]
    ]
  ]

  -- Whatever key is pressed in the jump-to dialog, where it goes on, also after a new size of the
  -- terminal and after the information on a match: if there are matches, one of them is selected
  -- and drawn, provided that this was so before.
  pub search_key-HasRow :
      (k : Key) (cols : ℕ) (b : Search) → HasRow b → StepHasRow b (search_key world k cols b)
  unfolding search_key
  search_key-HasRow (char c) cols b v = search_char-HasRow c cols b v
  search_key-HasRow (key_resize rows cols') cols b v = resize_matches-HasRow rows b v
  search_key-HasRow key_down cols b v = next-HasRow b v
  search_key-HasRow key_up cols b v = prev-HasRow b v
  search_key-HasRow key_npage cols b v = repeat-HasRow select_next_match next-HasRow 6 b v
  search_key-HasRow key_ppage cols b v = repeat-HasRow select_prev_match prev-HasRow 6 b v
  search_key-HasRow key_end cols b v = record {
    height_pos = v.height_pos;
    row = λ some_match. ground arith;
  }
  search_key-HasRow key_home cols b v = record {
    height_pos = v.height_pos;
    row = λ some_match. (some_match, omega arith, omega arith);
  }
  search_key-HasRow _ cols b v = edited-HasRow _ b v

-- With matches, the selected one can be read.
at-IsRow :
    (ns : List MenuNode) (i : ℤ) (scroll h : ℕ)
    → IsRow i (length ns) scroll h
    → (n : MenuNode) × (at ns i ≡ some n)
unfolding at
at-IsRow ns (pos k) scroll h r = get_elem?-lt ns k r.0
at-IsRow ns (negsuc k) scroll h r = absurd r

pub at-HasRow :
    (b : Search)
    → HasRow b
    → 0 < length b.matches
    → (n : MenuNode) × (at b.matches b.sel_node_i ≡ some n)
at-HasRow b v h = at-IsRow b.matches b.sel_node_i b.scroll b.height (v.row h)
