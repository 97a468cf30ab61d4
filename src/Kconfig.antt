-- ===== src/Kconfig.antt =====
-- scripts/kconfig/kconfig.py: what kconfiglib and the standard library do for it, as parameters, and
-- what a run of the script does. A message is given by the data that its text is made of.
pub mod Checks
pub mod Merge
pub mod Quiet
pub mod Tests
use ve_root.Base.{ℕ, Bool, Option, none, some, List, [], ◌∷◌, ◌++◌}
pub use ve_root.Base.{Text}

-- The names that the script looks up in `Kconfig.syms`.
pub data Flag : Type 0 where
  warn_deprecated : Flag
  warn_experimental : Flag
  deprecated : Flag
  experimental : Flag
  not_secure : Flag

-- `Symbol.user_value` with the type of the symbol: a number for a bool or tristate symbol, and a
-- text for the others.
pub data Assigned : Type 0 where
  tri : Option ℕ → Assigned
  text : Option Text → Assigned

-- A symbol. `prompts` says for each of its nodes whether there is a prompt.
pub record Sym (Expr : Type 0) : Type 0 where
  pub name : Text
  pub in_choice : Bool
  pub assigned : Assigned
  pub str_value : Text
  pub tri_value : ℕ
  pub direct_dep : Expr
  pub rev_dep : Expr
  pub prompts : List Bool

-- A choice. The Boolean of the user selection says whether it is the selection.
pub record Choice (Expr : Type 0) : Type 0 where
  pub user_selection : Option (Sym Expr × Bool)
  pub selection : Option (Sym Expr)

-- kconfiglib, over its type of expressions and of configurations. `none` is an exception.
-- `name_of` is the attribute `name`, which a compound expression does not have. `is_n` is `is kconf.n`.
pub record Kconfiglib (Expr Kconf : Type 0) : Type 0 where
  pub open_kconfig : Option Text → Text → Option Kconf
  pub warn_assign_undef : Kconf → Kconf
  pub no_warn_assign_override : Kconf → Kconf
  pub no_warn_assign_redun : Kconf → Kconf
  pub load_config : Kconf → Text → Bool → Option (Text × Kconf)
  pub write_config : Kconf → Text → Option (Text × Kconf)
  pub write_autoconf : Kconf → Text → Option (Text × Kconf)
  pub unique_defined_syms : Kconf → List (Sym Expr)
  pub unique_choices : Kconf → List (Choice Expr)
  pub syms : Kconf → Flag → Option (Sym Expr)
  pub warnings : Kconf → List Text
  pub kconfig_filenames : Kconf → List Text
  -- `open(path, 'w')` for the list of files, `none` if it raises
  pub open_list : Kconf → Text → Option (Unit {0})
  pub split_and : Expr → List Expr
  pub split_or : Expr → List Expr
  pub expr_value : Expr → ℕ
  pub expr_str : Expr → Text
  pub is_tuple : Expr → Bool
  pub name_of : Expr → Option Text
  pub is_n : Expr → Bool
  -- `re.search(warn_only, warning)`
  pub set_more_than_once : Text → Bool
  -- `os.path.realpath(os.path.join(kconf.srctree, path))`
  pub real_path : Kconf → Text → Text
  pub devnull : Text

pub data Message (Expr : Type 0) : Type 0 where
  not_taken : Sym Expr → Text → List Text → Message Expr
  not_selected : Sym Expr → Option (Sym Expr) → Message Expr
  enabled : Flag → Text → Message Expr
  no_prompt : Sym Expr → Message Expr
  kconfig_warnings : Message Expr

-- `prints` is the standard output, `warns` is `warn()`, and `reports` is a warning of kconfiglib.
pub data Event (Expr : Type 0) : Type 0 where
  prints : Text → Event Expr
  warns : Message Expr → Event Expr
  reports : Text → Event Expr
  writes_config : Text → Event Expr
  writes_header : Text → Event Expr
  writes_list : Text → List Text → Event Expr

-- What happens in a run, in order, and how it ends: `exits` is `err()`, and `raises` any other
-- exception.
pub data Run (Expr A : Type 0) : Type 0 where
  returns : List (Event Expr) → A → Run Expr A
  exits : List (Event Expr) → Message Expr → Run Expr A
  raises : List (Event Expr) → Run Expr A

module _ {Expr : Type 0} where
  abbrev pub after : {A : Type 0} → List (Event Expr) → Run Expr A → Run Expr A
  after es (returns fs a) = returns (es ++ fs) a
  after es (exits fs m) = exits (es ++ fs) m
  after es (raises fs) = raises (es ++ fs)

  infixl 5 ◌>>=◌ ◌>>◌
  abbrev pub ◌>>=◌ : {A B : Type 0} → Run Expr A → (A → Run Expr B) → Run Expr B
  returns es a >>= f = after es (f a)
  exits es m >>= f = exits es m
  raises es >>= f = raises es

  abbrev pub ◌>>◌ : {A B : Type 0} → Run Expr A → Run Expr B → Run Expr B
  m >> n = m >>= λ _. n

  abbrev pub pure : {A : Type 0} → A → Run Expr A
  pure a = returns [] a

  abbrev pub emit : Event Expr → Run Expr (Unit {0})
  emit e = returns (e ∷ []) tt

  -- A call that may raise.
  abbrev pub call : {A : Type 0} → Option A → Run Expr A
  call none = raises []
  call (some a) = returns [] a
