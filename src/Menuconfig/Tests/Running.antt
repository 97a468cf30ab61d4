-- ===== src/Menuconfig/Tests/Running.antt =====
-- Instances of the theorems on the dialogs and the main loop (menuconfig.py).
use ve_root.Base.{
  ℕ, ℤ, ◌≡◌, refl, Option, some, none, true, false, List, [], ◌∷◌, arith, Bool, pos, ◌+◌, ◌-◌, leb,
  ◌&&◌, ◌↔◌, if◌then◌else◌,
}
use ve_root.Menuconfig.Nodes.{Conf, Text, Tree, Item, symbol, int}
use ve_root.Menuconfig.Keys.{Key, char, key_down, key_resize}
use ve_root.Menuconfig.Session.{World, Session, returns}
use ve_root.Menuconfig.Session.Post.{Post, IsSound, Sound}
use ve_root.Menuconfig.Dialogs.{quit_dialog, loaded, save_dialog}
use ve_root.Menuconfig.Dialogs.Closing.{Quits, quit_dialog-Quits}
use ve_root.Menuconfig.Dialogs.Loading.{IsLoaded, loaded_lem}
use ve_root.Menuconfig.Shown.{shown_nodes}
use ve_root.Menuconfig.Navigate.{is_in}
use ve_root.Menuconfig.Dialogs.Saving.{Saves, save_dialog-Saves}
use ve_root.Menuconfig.Values.{check_valid}
use ve_root.Menuconfig.Values.Valid.{IsValue, check_valid_lem}
use ve_root.Menuconfig.Change.{change_node}
use ve_root.Menuconfig.Change.Sound.{change_node-Sound}
use ve_root.Menuconfig.Main.{menuconfig}
use ve_root.Menuconfig.Main.Sound.{Ends, menuconfig-Ends}
use ve_root.Menuconfig.Search.{Search, open_search, search_key}
use ve_root.Menuconfig.Search.Row.{StepHasRow, open_search-HasRow, search_key-HasRow}
use ve_root.Menuconfig.Tests.{top, sample_tree, sample_conf, start, foo, bar, sub_menu}

-- Writing always succeeds, and a file gives the sample configuration.
abbrev pub sample_world : World
sample_world = record {
  set_value = λ c i t. c;
  load_config = λ c t. some sample_conf;
  write_config = λ c t. true;
  write_min_config = λ c t. true;
  missing_syms = λ c. false;
  unique_defined_syms = [];
  user_value = λ c s. none;
  config_string = λ c s. false;
  expand_user = λ t. t;
  strip = λ t. t;
  parse_int = λ b t. none;
  is_word = λ c. true;
  is_space = λ c. false;
  erase_char = some 0x7F;
  value_width = λ i. 30;
  file_width = 40;
  info_lines = λ c n. 30;
  lower_text = λ t. t;
  split = λ t. t ∷ [];
  compile = λ t. some (λ u. true);
  sc_name = λ i. none;
  sorted_sc_nodes = foo ∷ (bar ∷ []);
  sorted_menu_comment_nodes = sub_menu ∷ [];
}

abbrev pub session : Session
session = record {
  ui = record start { conf_changed = true };
  rows = 24;
  cols = 80;
  conf_filename = b'c' ∷ [];
  minconf_filename = b'd' ∷ [];
  on_disk = sample_conf;
}

pub session-IsSound : IsSound session
session-IsSound = record {
  in_view = record { selected = omega arith; not_above = omega arith; not_below = omega arith };
  saved = λ _. refl;
}

abbrev quit_keys : List Key
quit_keys = key_down ∷ (key_resize 10 40 ∷ (char b'Y' ∷ (char b'x' ∷ [])))

quit_dialog-Quits_example : Post (Quits 4) (quit_dialog sample_world sample_tree session quit_keys)
quit_dialog-Quits_example =
    quit_dialog-Quits sample_world sample_tree session quit_keys session-IsSound

abbrev file_keys : List Key
file_keys = char b'o' ∷ (char b'a' ∷ (char 0x0A ∷ (char b' ' ∷ [])))

sub_menu_shown : is_in 2 (shown_nodes sample_tree sample_conf true top) ≡ true
unfolding is_in shown_nodes
sub_menu_shown = refl

loaded_lem_example :
    (s : Session) × (loaded sample_world sample_tree sample_conf (b'o' ∷ []) session []
      ≡ returns tt s [])
    × IsLoaded sample_world sample_tree session sub_menu sample_conf (b'o' ∷ []) s
loaded_lem_example =
    loaded_lem sample_world sample_tree sample_conf (b'o' ∷ []) sub_menu session []
      session-IsSound.in_view refl sub_menu_shown

save_dialog-Saves_example :
    Post
      (Saves (λ c t. true) 4)
      (save_dialog sample_world (λ c t. true) (b'c' ∷ []) session file_keys)
save_dialog-Saves_example =
    save_dialog-Saves sample_world (λ c t. true) (b'c' ∷ []) session file_keys session-IsSound

change_node-Sound_example :
    Post (Sound 4 {A = Bool}) (change_node sample_world sample_tree foo session file_keys)
change_node-Sound_example =
    change_node-Sound sample_world sample_tree foo session file_keys session-IsSound

-- A parser of numbers that knows the texts "1", "2" and "3".
abbrev digits : ℕ → Text → Option ℤ
digits base (c ∷ []) = if leb b'1' c && leb c b'3' then some (pos (c - b'0')) else none
digits base _ = none

abbrev digit_world : World
digit_world = record sample_world { parse_int = digits }

-- A symbol with the range from symbol 1 to symbol 3.
abbrev ranged_tree : Tree
ranged_tree = record sample_tree {
  orig_type = λ _. int;
  ranges = λ _. record { low = 1; high = 3; cond = 1 } ∷ [];
}

abbrev digit_of : Item → Text
digit_of (symbol s) = (b'0' + s) ∷ []
digit_of _ = []

abbrev digit_conf : Conf
digit_conf = record sample_conf { str_value = digit_of }

check_valid_lem_example :
    (check_valid digit_world ranged_tree digit_conf (symbol 9) (b'2' ∷ []) ≡ some true)
    ↔ IsValue digit_world ranged_tree digit_conf (symbol 9) (b'2' ∷ [])
check_valid_lem_example = check_valid_lem digit_world ranged_tree digit_conf (symbol 9) (b'2' ∷ [])

check_valid_run : check_valid digit_world ranged_tree digit_conf (symbol 9) (b'2' ∷ []) ≡ some true
unfolding check_valid
check_valid_run = refl

-- Down, the search for `a` with a jump to the second match, space, quit, and the answer that
-- saves.
abbrev all_keys : List Key
all_keys =
    key_down
    ∷ (char b'/'
        ∷ (char b'a' ∷ (key_down ∷ (char 0x0A ∷ (char b' ' ∷ (char b'q' ∷ (char b'y' ∷ [])))))))

menuconfig-Ends_example :
    Post (Ends sample_world sample_tree) (menuconfig sample_world sample_tree session all_keys)
menuconfig-Ends_example = menuconfig-Ends sample_world sample_tree session all_keys session-IsSound

abbrev search : Search
search = open_search sample_world 24

search_key-HasRow_example : StepHasRow search (search_key sample_world (char b'a') 80 search)
search_key-HasRow_example =
    search_key-HasRow sample_world (char b'a') 80 search (open_search-HasRow sample_world 24)
