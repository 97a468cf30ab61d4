-- ===== src/Menuconfig/Dialogs.antt =====
-- The dialogs that float above the menu (menuconfig.py): `_key_dialog()`, `_msg()`,
-- `_input_dialog()`, `_quit_dialog()`, `_load_dialog()` and `_save_dialog()`.
pub mod Sound
pub mod Closing
pub mod Files
pub mod Loading
pub mod Saving
use ve_root.Base.{
  ℕ, zero, suc, ◌+◌, ◌-◌, min, Bool, true, false, not, ◌&&◌, ◌||◌, Option, none, some, List, [],
  ◌∷◌, length, get_elem?, ltb, leb, ◌==◌, if◌then◌else◌,
}
use ve_root.Menuconfig.Nodes.{MenuNode, Tree, Conf, Text}
use ve_root.Menuconfig.Keys.{Key, char, key_resize}
use ve_root.Menuconfig.Edit.{EditBox, edit_text}
use ve_root.Menuconfig.Shown.{shown_nodes}
use ve_root.Menuconfig.State.{State, resize_main}
use ve_root.Menuconfig.Navigate.{is_in, update_menu}
use ve_root.Menuconfig.Values.{is_in_values, needs_save, selected_node}
use ve_root.Menuconfig.Session.{
  World, Session, Outcome, waits, raises, exhausted, returns, Ui, ◌>>=◌, ◌>>◌, pure, get, modify,
  try_ui, resize,
}

abbrev pub escape : ℕ
escape = 0x1B

abbrev pub newline : ℕ
newline = 0x0A

-- `str.lower()`, as far as it can give a letter that a dialog asks for.
pub lower : ℕ → ℕ
lower c = if leb b'A' c && leb c b'Z' then c + 32 else c

-- What a dialog does with a key: stay open in a new state, or close.
pub data Step (B : Type 0) : Type 0 where
  stay : Session → Step B
  close : B → Step B

key_step : List ℕ → Key → Session → Step (Option ℕ)
unfolding lower
key_step keys (key_resize rows cols) s = stay (resize rows cols s)
key_step keys (char c) s =
    if c == escape
    then close none
    else if is_in_values (lower c) keys
    then close (some (lower c))
    else stay s
key_step keys _ s = stay s

-- `_key_dialog()`: the key that closes the dialog, or nothing for Escape.
unfoldable pub key_dialog : List ℕ → Ui (Option ℕ)
unfolding key_step
key_dialog keys s [] = waits
key_dialog keys s (k ∷ ks) = elim (key_step keys k s) [
  | stay s' ↦ key_dialog keys s' ks
  | close r ↦ returns r s ks
]

-- `_msg()` and `_error()`, which ignore the key.
pub msg : Ui (Option ℕ)
unfolding key_dialog
msg = key_dialog (b' ' ∷ (newline ∷ []))

module _ (world : World) where
  -- The columns of the edit box, in a dialog that would like `needed` columns.
  pub edit_width : ℕ → Session → ℕ
  edit_width needed s = min needed s.cols - 4

  pub data Input : Type 0 where
    goes_on : Session → EditBox → Input
    ends : Option Text → Input

  input_char : ℕ → ℕ → Session → EditBox → Input
  input_char needed c s b =
      if c == newline
      then ends (some b.s)
      else if c == escape
      then ends none
      else if c == 0
      then goes_on s b
      else goes_on s
          (edit_text world.is_word world.is_space world.erase_char (char c) (edit_width needed s) b)

  input_step : ℕ → Key → Session → EditBox → Input
  unfolding input_char
  input_step needed (key_resize rows cols) s b = goes_on (resize rows cols s) b
  input_step needed (char c) s b = input_char needed c s b
  input_step needed k s b =
      goes_on s (edit_text world.is_word world.is_space world.erase_char k (edit_width needed s) b)

  input_loop : ℕ → EditBox → Ui (Option Text)
  unfolding input_step
  input_loop needed b s [] = waits
  input_loop needed b s (k ∷ ks) = elim (input_step needed k s b) [
    | goes_on s' b' ↦ input_loop needed b' s' ks
    | ends r ↦ returns r s ks
  ]

  -- `_input_dialog()`: the text, or nothing for Escape.
  unfoldable pub input_dialog : ℕ → Text → Ui (Option Text)
  unfolding input_loop edit_width
  input_dialog needed initial s ks =
      input_loop needed
        (record {
          s = initial;
          i = length initial;
          hscroll = length initial + 1 - edit_width needed s;
        })
        s ks

-- The line that is printed when the program ends.
pub data Exit : Type 0 where
  no_changes saved not_saved : Exit

module _ (world : World) (tree : Tree) where
  -- `_try_save()` of the configuration, with the file's new contents noted.
  abbrev written : Session → Session
  written s = record s { on_disk = s.conf }

  quit_key : Option ℕ → Ui (Option Exit) → Ui (Option Exit)
  quit_key none again s ks = returns none s ks
  quit_key (some c) again s ks =
      if c == b'c'
      then returns none s ks
      else if c == b'y'
      then (if world.write_config s.conf s.conf_filename
          then returns (some saved) (written s) ks
          else (msg >>= λ _. again) s ks)
      else if c == b'n'
      then returns (some not_saved) s ks
      else again s ks

  -- The loop of `_quit_dialog()`, on fuel: each round reads a key.
  quit_loop : ℕ → Ui (Option Exit)
  unfolding quit_key
  quit_loop zero = λ s ks. exhausted
  quit_loop (suc fuel) = do
    c ← key_dialog (b'y' ∷ (b'n' ∷ (b'c' ∷ [])))
    quit_key c (quit_loop fuel)

  -- Nothing to save, or the answer to the dialog; `none` goes back to the menu.
  unfoldable pub quit_dialog : Ui (Option Exit)
  unfolding quit_loop
  quit_dialog s ks =
      if s.conf_changed then quit_loop (suc (length ks)) s ks else returns (some no_changes) s ks

  -- The globals after `_try_load()`.
  take_conf : Conf → Text → Session → Session
  take_conf conf filename s = record s {
    ui = record s.ui { conf = conf; conf_changed = needs_save world tree conf };
    conf_filename = filename;
    on_disk = conf;
  }

  -- Turns show-all mode on if the selected node is not visible with the new values.
  reveal : MenuNode → Session → Session
  reveal n s = record s {
    ui = record s.ui {
      show_all =
          if is_in n.id (shown_nodes tree s.conf s.show_all s.cur_menu) then s.show_all else true;
    };
  }

  -- What `_load_dialog()` does with a file that could be read, before the message.
  pub loaded : Conf → Text → Ui (Unit {0})
  unfolding take_conf reveal
  loaded conf filename = do
    modify (take_conf conf filename)
    n ← selected_node
    modify (reveal n)
    try_ui (update_menu tree)

  load_file : (Text → Ui (Unit {0})) → Text → Option Conf → Ui (Unit {0})
  unfolding loaded
  load_file again filename none = msg >>= λ _. again filename
  load_file again filename (some conf) = loaded conf filename >>= λ _. msg >>= λ _. pure tt

  load_answer : (Text → Ui (Unit {0})) → Option Text → Ui (Unit {0})
  unfolding load_file
  load_answer again none s ks = returns tt s ks
  load_answer again (some name) s ks =
      let filename = world.expand_user name in
      load_file again filename (world.load_config s.conf filename) s ks

  load_loop : ℕ → Text → Ui (Unit {0})
  unfolding load_answer
  load_loop zero filename s ks = exhausted
  load_loop (suc fuel) filename s ks =
      (input_dialog world world.file_width filename >>= load_answer (load_loop fuel)) s ks

  load_key : Option ℕ → Ui (Unit {0}) → Ui (Unit {0})
  load_key none go s ks = returns tt s ks
  load_key (some c) go s ks = if c == b'c' then returns tt s ks else go s ks

  -- `_load_dialog()`, with a question first if there are unsaved changes.
  unfoldable pub load_dialog : Ui (Unit {0})
  unfolding load_loop load_key
  load_dialog s ks =
      let go : Ui (Unit {0}) = λ s ks. load_loop (suc (length ks)) s.conf_filename s ks in
      if s.conf_changed
      then (key_dialog (b'o' ∷ (b'c' ∷ [])) >>= λ c. load_key c go) s ks
      else go s ks

save_done : Option Text → Session → Session
save_done none s = s
save_done (some name) s = record s {
  ui = record s.ui { conf_changed = false };
  conf_filename = name;
  on_disk = s.conf;
}

min_done : Option Text → Session → Session
min_done none s = s
min_done (some name) s = record s { minconf_filename = name }

module _ (world : World) where
  save_file : (Text → Ui (Option Text)) → Text → Bool → Ui (Option Text)
  save_file again filename true = msg >>= λ _. pure (some filename)
  save_file again filename false = msg >>= λ _. again filename

  save_answer : (Conf → Text → Bool) → (Text → Ui (Option Text)) → Option Text → Ui (Option Text)
  unfolding save_file
  save_answer save again none s ks = returns none s ks
  save_answer save again (some name) s ks =
      let filename = world.expand_user name in save_file again filename (save s.conf filename) s ks

  save_loop : (Conf → Text → Bool) → ℕ → Text → Ui (Option Text)
  unfolding save_answer
  save_loop save zero filename s ks = exhausted
  save_loop save (suc fuel) filename s ks =
      (input_dialog world world.file_width filename >>= save_answer save (save_loop save fuel)) s ks

  -- `_save_dialog()`: the path that was written, or nothing.
  unfoldable pub save_dialog : (Conf → Text → Bool) → Text → Ui (Option Text)
  unfolding save_loop
  save_dialog save default_filename s ks = save_loop save (suc (length ks)) default_filename s ks

  -- The key S of the main display.
  unfoldable pub save_config : Ui (Unit {0})
  unfolding save_done
  save_config = do
    s ← get
    filename ← save_dialog world.write_config s.conf_filename
    modify (save_done filename)

  -- The key D of the main display.
  unfoldable pub save_min_config : Ui (Unit {0})
  unfolding min_done
  save_min_config = do
    s ← get
    filename ← save_dialog world.write_min_config s.minconf_filename
    modify (min_done filename)
