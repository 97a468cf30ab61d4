-- ===== src/Scripts/Lint.antt =====
-- scripts/kconfig/lint.py: what it asks of kconfiglib and of other programs, and `run()`. A message is
-- given by its data.
pub mod Search
pub mod Lists
pub mod Checks
use ve_root.Base.{
  ℕ, zero, suc, Bool, true, false, ◌&&◌, not, Option, none, some, List, [], ◌∷◌, ◌++◌,
  if◌then◌else◌, ℤ, pos, negsuc, Text, codes,
}
use ve_root.Scripts.{Run, returns, raises, ◌>>=◌, emit, pure}

-- A node of a symbol: its place, and whether it has a prompt.
pub record Place : Type 0 where
  pub filename : Text
  pub linenr : ℕ
  pub prompt : Bool

-- A symbol. The Booleans say whether `rev_dep` and `weak_rev_dep` are not `kconf.n`, whether it has
-- defaults, selects and implies, and whether it is in a choice.
pub record Sym : Type 0 where
  pub name : Text
  pub nodes : List Place
  pub selected : Bool
  pub implied : Bool
  pub defaults : Bool
  pub selects : Bool
  pub implies : Bool
  pub in_choice : Bool

-- A node of the menu tree. `symbol` is the name of its item if that is a symbol, `list` says whether
-- it has nodes below it, and `referenced` has the names of the symbols that it refers to.
pub record Node : Type 0 where
  pub place : Place
  pub is_menuconfig : Bool
  pub list : Bool
  pub symbol : Option Text
  pub referenced : List Text

pub record Kconf : Type 0 where
  pub unique_defined_syms : List Sym
  pub node_iter : List Node

-- What a program gives: its exit status, and its two outputs. `stdout` is decoded with what is not
-- UTF-8 left out, and `stderr` is none if it is not UTF-8.
pub record Output : Type 0 where
  pub status : ℤ
  pub stdout : Text
  pub stderr : Option Text

-- Programs, which may fail to start, with the classes `\w` and `\s` of regular expressions.
pub record System : Type 0 where
  pub popen : List Text → Text → Option Output
  pub top_dir : Text
  pub kconfig_modules : Text
  pub is_word : ℕ → Bool
  pub is_space : ℕ → Bool

pub data Event : Type 0 where
  prints : Text → Event
  wrote_to_stderr : List Text → Text → Event
  runs : List Text → Text → Event

pub data Fault : Type 0 where
  failed_to_run : List Text → Fault
  exited_with : List Text → ℤ → Fault
  undecodable : List Text → Fault

abbrev pub is_zero : ℤ → Bool
is_zero (pos zero) = true
is_zero (pos (suc n)) = false
is_zero (negsuc n) = false

-- A warning about what was written to the standard error.
abbrev pub warn_stderr : List Text → Text → List Event
warn_stderr cmd [] = []
warn_stderr cmd (c ∷ t) = wrote_to_stderr cmd (c ∷ t) ∷ []

-- The end of `run()`, when the program could be started.
take_output : Bool → List Text → Output → Run Event Fault Text
take_output check cmd out = elim out.stderr [
  | none ↦ raises [] (undecodable cmd)
  | some stderr ↦
      if check && not (is_zero out.status)
      then raises [] (exited_with cmd out.status)
      else returns (warn_stderr cmd stderr) out.stdout
]

unfoldable pub run : System → List Text → Text → Bool → Run Event Fault Text
unfolding take_output
run system cmd cwd check = emit (runs cmd cwd) >>= λ _. elim (system.popen cmd cwd) [
  | none ↦ raises [] (failed_to_run cmd)
  | some out ↦ take_output check cmd out
]
