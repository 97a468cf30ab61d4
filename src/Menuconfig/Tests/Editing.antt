-- ===== src/Menuconfig/Tests/Editing.antt =====
-- Instances of the theorems on the edit box (menuconfig.py).
use ve_root.Base.{ℕ, ◌≡◌, refl, Bool, some, [], ◌∷◌, leb, ◌==◌, arith}
use ve_root.Menuconfig.Keys.{Key, char, key_end, key_left, key_dc}
use ve_root.Menuconfig.Edit.{
  EditBox, edit_text, word_start, all_space, word_then_space, matches_word,
}
use ve_root.Menuconfig.Edit.Cursor.{IsShown, edit_text-IsShown}
use ve_root.Menuconfig.Edit.Word.{IsWordStart, word_start-IsWordStart}
use ve_root.Menuconfig.Edit.Undo.{IsPlain, press, insert-left-delete}

-- Letters and spaces of ASCII.
abbrev letter : ℕ → Bool
letter c = leb b'a' c

abbrev space : ℕ → Bool
space c = c == b' '

abbrev box : EditBox
box = record { s = b'a' ∷ (b'b' ∷ (b',' ∷ (b' ' ∷ (b'c' ∷ [])))); i = 4; hscroll = 0 }

delete_word_run : word_start letter space box.s ≡ 4
unfolding word_start all_space word_then_space matches_word
delete_word_run = refl

edit_text-IsShown_example : IsShown 12 (edit_text letter space (some 0x7F) key_end 12 box)
edit_text-IsShown_example =
    edit_text-IsShown letter space (some 0x7F) key_end 12 box (omega arith) (omega arith)

word_start-IsWordStart_example : IsWordStart letter space box.s (word_start letter space box.s)
word_start-IsWordStart_example = word_start-IsWordStart letter space box.s

IsPlain-z : IsPlain (some 0x7F) b'z'
IsPlain-z = record {
  not_home = omega arith;
  not_end = omega arith;
  not_erase = refl;
  not_word = omega arith;
  not_kill = omega arith;
  not_kill_back = omega arith;
}

abbrev ascii_press : Key → ℕ → EditBox → EditBox
ascii_press = press letter space (some 0x7F)

insert-left-delete_example :
    ((ascii_press key_dc 12 (ascii_press key_left 12 (ascii_press (char b'z') 12 box))).s ≡ box.s)
    × ((ascii_press key_dc 12 (ascii_press key_left 12 (ascii_press (char b'z') 12 box))).i ≡ box.i)
insert-left-delete_example =
    insert-left-delete letter space (some 0x7F) b'z' 12 box IsPlain-z (omega arith)
