-- ===== src/Menuconfig/Edit.antt =====
-- `_edit_text()` (menuconfig.py): the state of an edit box and the effect of a key on it. Text is
-- the list of its code points. The erase character of the terminal and the classes `\w` and `\s`
-- of Python's `re` are parameters.
pub mod Cursor
pub mod Undo
pub mod Word
use ve_root.Base.{
  ℕ, zero, suc, ◌+◌, ◌-◌, max, min, Bool, true, false, not, ◌&&◌, ◌||◌, Option, List, [], ◌∷◌, ◌++◌,
  length, take, drop, ltb, leb, ◌==◌, if◌then◌else◌,
}
use ve_root.Menuconfig.Keys.{
  Key, char, key_left, key_right, key_home, key_end, key_backspace, key_dc, is_erase,
}

-- Minimum number of rows and columns kept round the cursor.
abbrev pub scroll_offset : ℕ
scroll_offset = 5

pub record EditBox : Type 0 where
  pub s : List ℕ
  pub i : ℕ
  pub hscroll : ℕ

-- Does `\s*` match the whole text?
unfoldable pub all_space : (ℕ → Bool) → List ℕ → Bool
all_space is_space [] = true
all_space is_space (x ∷ xs) = is_space x && all_space is_space xs

-- The last lines. `i - width + _SCROLL_OFFSET + 1` is positive where it is computed.
pub adjust_hscroll : ℕ → EditBox → EditBox
adjust_hscroll width b =
    if ltb b.i (b.hscroll + scroll_offset)
    then record b { hscroll = b.i - scroll_offset }
    else if leb (b.hscroll + width) (b.i + scroll_offset)
    then record b { hscroll = min (b.i + scroll_offset + 1 - width) (length b.s + 1 - width) }
    else b

module _ (is_word is_space : ℕ → Bool) where
  -- Does `\w*\s*` match the whole text?
  unfoldable pub word_then_space : List ℕ → Bool
  word_then_space [] = true
  word_then_space (x ∷ xs) = all_space is_space (x ∷ xs) || (is_word x && word_then_space xs)

  -- Does `(?:\w*|\W)\s*` match the whole text?
  unfoldable pub matches_word : List ℕ → Bool
  matches_word [] = true
  matches_word (x ∷ xs) = word_then_space (x ∷ xs) || (not (is_word x) && all_space is_space xs)

  -- `re.search(r"(?:\w*|\W)\s*$", s).start()`: the first place where the rest matches.
  unfoldable pub word_start : List ℕ → ℕ
  word_start [] = 0
  word_start (x ∷ xs) = if matches_word (x ∷ xs) then 0 else suc (word_start xs)

  module _ (erase_char : Option ℕ) where
    pub backspace : EditBox → EditBox
    backspace b =
        if ltb 0 b.i then record b { s = take (b.i - 1) b.s ++ drop b.i b.s; i = b.i - 1 } else b

    pub delete_word : EditBox → EditBox
    delete_word b =
        let new_i = word_start (take b.i b.s) in
        record b { s = take new_i b.s ++ drop b.i b.s; i = new_i }

    pub insert_char : ℕ → EditBox → EditBox
    insert_char c b = record b { s = take b.i b.s ++ (c ∷ drop b.i b.s); i = b.i + 1 }

    edit_char : ℕ → EditBox → EditBox
    edit_char c b =
        if c == 0x01
        then record b { i = 0 }
        else if c == 0x05
        then record b { i = length b.s }
        else if is_erase erase_char c
        then backspace b
        else if c == 0x17
        then delete_word b
        else if c == 0x0B
        then record b { s = take b.i b.s }
        else if c == 0x15
        then record b { s = drop b.i b.s; i = 0 }
        else insert_char c b

    -- The chain of tests, before the scroll is adjusted. A key code that is not listed does nothing.
    pub edit_key : Key → EditBox → EditBox
    unfolding edit_char backspace insert_char
    edit_key (char c) b = edit_char c b
    edit_key key_left b = if ltb 0 b.i then record b { i = b.i - 1 } else b
    edit_key key_right b = if ltb b.i (length b.s) then record b { i = b.i + 1 } else b
    edit_key key_home b = record b { i = 0 }
    edit_key key_end b = record b { i = length b.s }
    edit_key key_backspace b = backspace b
    edit_key key_dc b = record b { s = take b.i b.s ++ drop (b.i + 1) b.s }
    edit_key _ b = b

    unfoldable pub edit_text : Key → ℕ → EditBox → EditBox
    unfolding edit_key adjust_hscroll
    edit_text c width b = adjust_hscroll width (edit_key c b)
