-- ===== src/Menuconfig/Edit/Cursor.antt =====
-- The cursor of an edit box (`_edit_text()` in menuconfig.py).
use ve_root.Base.{
  ℕ, ◌+◌, ◌-◌, ◌*◌, ◌≤◌, ◌<◌, ◌≡◌, ◌⊎◌, Bool, ◌∷◌, ◌++◌, Option, List, length, take, drop, arith,
  length-append, length-take, length-drop,
}
use ve_root.Menuconfig.Keys.{Key, char, key_left, key_right, key_backspace, key_dc}
use ve_root.Menuconfig.Edit.{
  EditBox, scroll_offset, adjust_hscroll, word_start, edit_key, edit_text, delete_word,
}
use ve_root.Menuconfig.Edit.Word.{word_start-IsWordStart}

-- The cursor is shown: it stands in the box, off both edges unless the text begins or ends there.
pub record IsShown (width : ℕ) (b : EditBox) : Type 0 where
  pub left : b.hscroll ≤ b.i
  pub right : b.i < b.hscroll + width
  pub off_left : (b.hscroll ≡ 0) ⊎ (b.hscroll + scroll_offset ≤ b.i)
  pub within : b.i ≤ length b.s
  pub off_right : (b.i + scroll_offset < b.hscroll + width) ⊎ (length b.s < b.hscroll + width)

adjust_hscroll-IsShown :
    (width : ℕ) (b : EditBox)
    → 2 * scroll_offset < width
    → b.i ≤ length b.s
    → IsShown width (adjust_hscroll width b)
unfolding adjust_hscroll
adjust_hscroll-IsShown width b w h = ground arith

drop-take-length : (xs : List ℕ) (n m : ℕ) → n ≤ length xs → n ≤ length (take n xs ++ drop m xs)
drop-take-length xs n m h = omega (arith, length-append (take n xs) (drop m xs), length-take n xs)

module _ (is_word is_space : ℕ → Bool) (erase_char : Option ℕ) where
  delete_word_within :
      (b : EditBox)
      → b.i ≤ length b.s
      → (delete_word is_word is_space erase_char b).i
        ≤ length (delete_word is_word is_space erase_char b).s
  unfolding delete_word
  delete_word_within b h =
      let start = word_start-IsWordStart is_word is_space (take b.i b.s) in
      drop-take-length b.s (word_start is_word is_space (take b.i b.s)) b.i
        (omega (arith, start.within, length-take b.i b.s))

  edit_key_within :
      (c : Key) (b : EditBox)
      → b.i ≤ length b.s
      → (edit_key is_word is_space erase_char c b).i
        ≤ length (edit_key is_word is_space erase_char c b).s
  unfolding edit_key
  edit_key_within (char c) b h = ground (
    arith,
    delete_word_within b h,
    length-append (take b.i b.s) (c ∷ drop b.i b.s),
    length-append (take (b.i - 1) b.s) (drop b.i b.s),
    length-take b.i b.s,
    length-take (b.i - 1) b.s,
    length-drop b.i b.s,
  )
  edit_key_within key_left b h = ground arith
  edit_key_within key_right b h = ground arith
  edit_key_within key_backspace b h =
      ground (arith, length-append (take (b.i - 1) b.s) (drop b.i b.s), length-take (b.i - 1) b.s)
  edit_key_within key_dc b h = drop-take-length b.s b.i (b.i + 1) h
  edit_key_within _ b h = omega arith

  -- Whatever key is pressed, a cursor within the text stays within the text, and in a box of more
  -- than ten columns it is shown, off the edges unless the text begins or ends there.
  pub edit_text-IsShown :
      (c : Key) (width : ℕ) (b : EditBox)
      → 2 * scroll_offset < width
      → b.i ≤ length b.s
      → IsShown width (edit_text is_word is_space erase_char c width b)
  unfolding edit_text
  edit_text-IsShown c width b w h =
      adjust_hscroll-IsShown width (edit_key is_word is_space erase_char c b) w
        (edit_key_within c b h)
