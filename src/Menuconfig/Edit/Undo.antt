-- ===== src/Menuconfig/Edit/Undo.antt =====
-- Keys of an edit box that undo one another, and what they leave alone (`_edit_text()` in
-- menuconfig.py).
use ve_root.Base.{
  ℕ, suc, ◌+◌, ◌-◌, ◌≤◌, ◌<◌, ◌≡◌, ◌≢◌, ◌∙◌, Bool, false, Option, List, ◌∷◌, ◌++◌, length, take,
  drop, arith, take-append-drop, take-take_append, drop-take_cons,
}
use native.Mathlib.Numerals.{add-one}
use ve_root.Menuconfig.Keys.{Key, char, key_left, key_backspace, key_dc, is_erase}
use ve_root.Menuconfig.Edit.{EditBox, edit_key, edit_text, adjust_hscroll}

-- A character that `_edit_text()` inserts.
pub record IsPlain (erase_char : Option ℕ) (c : ℕ) : Type 0 where
  pub not_home : c ≢ 0x01
  pub not_end : c ≢ 0x05
  pub not_erase : is_erase erase_char c ≡ false
  pub not_word : c ≢ 0x17
  pub not_kill : c ≢ 0x0B
  pub not_kill_back : c ≢ 0x15

module _ (is_word is_space : ℕ → Bool) (erase_char : Option ℕ) where
  abbrev pub press : Key → ℕ → EditBox → EditBox
  press = edit_text is_word is_space erase_char

  edit_text_plain :
      (c width : ℕ) (b : EditBox)
      → IsPlain erase_char c
      → ((press (char c) width b).s ≡ take b.i b.s ++ (c ∷ drop b.i b.s))
        × ((press (char c) width b).i ≡ b.i + 1)
  unfolding edit_text edit_key adjust_hscroll
  edit_text_plain c width b p = ground arith

  edit_text_backspace :
      (width : ℕ) (b : EditBox)
      → 0 < b.i
      → ((press key_backspace width b).s ≡ take (b.i - 1) b.s ++ drop b.i b.s)
        × ((press key_backspace width b).i ≡ b.i - 1)
  unfolding edit_text edit_key adjust_hscroll
  edit_text_backspace width b h = ground arith

  edit_text_left :
      (width : ℕ) (b : EditBox)
      → 0 < b.i
      → ((press key_left width b).s ≡ b.s) × ((press key_left width b).i ≡ b.i - 1)
  unfolding edit_text edit_key adjust_hscroll
  edit_text_left width b h = ground arith

  edit_text_delete :
      (width : ℕ) (b : EditBox)
      → ((press key_dc width b).s ≡ take b.i b.s ++ drop (b.i + 1) b.s)
        × ((press key_dc width b).i ≡ b.i)
  unfolding edit_text edit_key adjust_hscroll
  edit_text_delete width b = ground arith

  rejoin :
      (c : ℕ) (xs : List ℕ) (n : ℕ)
      → n ≤ length xs
      → take n (take n xs ++ (c ∷ drop n xs)) ++ drop (suc n) (take n xs ++ (c ∷ drop n xs)) ≡ xs
  rejoin c xs n h =
      rw (take-take_append n xs (c ∷ drop n xs) h, drop-take_cons n xs (drop n xs) c h)
        (take-append-drop n xs)

  module _ (c width : ℕ) (b : EditBox) (plain : IsPlain erase_char c)
      (within : b.i ≤ length b.s) where
    -- Typing a character that is no editing command and then Backspace gives back the text and
    -- the cursor.
    pub insert-backspace :
        ((press key_backspace width (press (char c) width b)).s ≡ b.s)
        × ((press key_backspace width (press (char c) width b)).i ≡ b.i)
    insert-backspace =
        let b' = press (char c) width b in
        let (text, cursor) = edit_text_plain c width b plain in
        let (text', cursor') = edit_text_backspace width b' (omega (arith, cursor)) in
        let back : b'.i - 1 ≡ b.i = omega (arith, cursor) in
        let here : b'.i ≡ suc b.i = omega (arith, cursor) in
        (text' ∙ rw (back, here, text) (rejoin c b.s b.i within), cursor' ∙ back)

    -- Typing such a character, then Left and Delete, does so too.
    pub insert-left-delete :
        ((press key_dc width (press key_left width (press (char c) width b))).s ≡ b.s)
        × ((press key_dc width (press key_left width (press (char c) width b))).i ≡ b.i)
    insert-left-delete =
        let b' = press (char c) width b in
        let b'' = press key_left width b' in
        let (text, cursor) = edit_text_plain c width b plain in
        let (text', cursor') = edit_text_left width b' (omega (arith, cursor)) in
        let (text'', cursor'') = edit_text_delete width b'' in
        let back : b''.i ≡ b.i = omega (arith, cursor, cursor') in
        (text'' ∙ rw (back, add-one, text' ∙ text) (rejoin c b.s b.i within), cursor'' ∙ back)
