-- ===== src/Menuconfig/Session.antt =====
-- A session of the interface (menuconfig.py): the globals, the keys that are still to come, and
-- what kconfiglib, the file system, curses and the standard library do, as parameters.
pub mod Post
use ve_root.Base.{ℕ, ℤ, Bool, true, false, Option, none, some, List, [], ◌∷◌, if◌then◌else◌}
use ve_root.Menuconfig.Nodes.{Item, MenuNode, Tree, Conf, Text}
use ve_root.Menuconfig.State.{State, resize_main}
use ve_root.Menuconfig.Keys.{Key}

-- `Symbol.user_value`: a number for a bool or tristate symbol, and text for the others.
pub data UserValue : Type 0 where
  tri : ℕ → UserValue
  text : Text → UserValue

-- What the program does not implement. `load_config` is `none`, and a write is false, where the
-- source gets an `EnvironmentError`. `parse_int` is `int(s, base)`, and `none` where that raises
-- `ValueError`. `config_string` and `missing_syms` say whether those are non-empty.
-- `compile` is `re.compile(…).search`, and `none` where that raises `re.error`. `value_width`,
-- `file_width` and `info_lines` measure texts that are not modelled, and the sorted lists are those
-- of `_sorted_sc_nodes()` and `_sorted_menu_comment_nodes()`.
pub record World : Type 0 where
  pub set_value : Conf → Item → Text → Conf
  pub load_config : Conf → Text → Option Conf
  pub write_config : Conf → Text → Bool
  pub write_min_config : Conf → Text → Bool
  pub missing_syms : Conf → Bool
  pub unique_defined_syms : List ℕ
  pub user_value : Conf → ℕ → Option UserValue
  pub config_string : Conf → ℕ → Bool
  pub expand_user : Text → Text
  pub strip : Text → Text
  pub parse_int : ℕ → Text → Option ℤ
  pub is_word : ℕ → Bool
  pub is_space : ℕ → Bool
  pub erase_char : Option ℕ
  pub value_width : Item → ℕ
  pub file_width : ℕ
  pub info_lines : Conf → MenuNode → ℕ
  pub lower_text : Text → Text
  pub split : Text → List Text
  pub compile : Text → Option (Text → Bool)
  pub sc_name : Item → Option Text
  pub sorted_sc_nodes : List MenuNode
  pub sorted_menu_comment_nodes : List MenuNode

-- `rows` and `cols` are `_stdscr.getmaxyx()`. `on_disk` is no variable of the program: it is the
-- configuration that was last loaded from a file or written to one with all its values.
pub record Session : Type 0 where
  pub ui : State
  pub open ui use *
  pub rows : ℕ
  pub cols : ℕ
  pub conf_filename : Text
  pub minconf_filename : Text
  pub on_disk : Conf

-- `waits`: no key is left. `raises`: an exception that nothing catches. `exhausted`: a loop has
-- used up its fuel, which stands for no behaviour of the program.
pub data Outcome {ℓ} (A : Type ℓ) : Type ℓ where
  waits : Outcome A
  raises : Outcome A
  exhausted : Outcome A
  returns : A → Session → List Key → Outcome A

abbrev pub Ui {ℓ} : Type ℓ → Type ℓ
Ui A = Session → List Key → Outcome A

infixl 5 ◌>>=◌ ◌>>◌
abbrev pub ◌>>=◌ {ℓ κ} : {A : Type ℓ} {B : Type κ} → Ui A → (A → Ui B) → Ui B
◌>>=◌ m f s ks = elim (m s ks) [
  | waits ↦ waits
  | raises ↦ raises
  | exhausted ↦ exhausted
  | returns a s' ks' ↦ f a s' ks'
]

abbrev pub ◌>>◌ {ℓ κ} : {A : Type ℓ} {B : Type κ} → Ui A → Ui B → Ui B
m >> k = m >>= λ _. k

abbrev pub pure {ℓ} : {A : Type ℓ} → A → Ui A
pure a s ks = returns a s ks

abbrev pub get : Ui Session
get s ks = returns s s ks

abbrev pub modify : (Session → Session) → Ui (Unit {0})
modify f s ks = returns tt (f s) ks

-- An operation on the menu that may raise.
abbrev pub try_ui : (State → Option State) → Ui (Unit {0})
try_ui f s ks = elim (f s.ui) [ none ↦ raises | some t ↦ returns tt (record s { ui = t }) ks ]

-- `_resize_main()` after `KEY_RESIZE`.
abbrev pub resize : ℕ → ℕ → Session → Session
resize rows cols s = record s { ui = resize_main rows s.ui; rows = rows; cols = cols }
