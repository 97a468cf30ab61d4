-- ===== src/Menuconfig/Keys.antt =====
-- What `_getch_compat()` returns (menuconfig.py): a character, by its code point, or a key code of
-- curses. Curses itself is not under the repository, so the keys are a data type here. `KEY_RESIZE`
-- comes with the new number of rows and columns: curses changes its size when it delivers the key.
use ve_root.Base.{ℕ, Bool, false, Option, none, some, ◌==◌}

pub data Key : Type 0 where
  char : ℕ → Key
  key_left key_right key_up key_down : Key
  key_home key_end key_npage key_ppage : Key
  key_backspace key_dc : Key
  key_resize : ℕ → ℕ → Key
  key_other : ℕ → Key

-- `c == _ERASE_CHAR`. The erase character is a blank string, `none`, if it cannot be decoded.
abbrev pub is_erase : Option ℕ → ℕ → Bool
is_erase none c = false
is_erase (some e) c = c == e
