-- ===== src/Scripts/Harden.antt =====
-- scripts/kconfig/hardenconfig.py, which compares a configuration with recommended values.
pub mod Reports
use ve_root.Base.{
  times, pad_right, centre, ℕ, zero, suc, Bool, true, false, not, ◌||◌, Option, none, some, List,
  [], ◌∷◌, ◌++◌, ◌==◌, if◌then◌else◌, Text, text_eq, codes,
}
use ve_root.Scripts.{Run, returns, raises, ◌>>=◌, emit, pure, or_raise, after}

-- A `select`: the symbol, and the condition if that is one symbol.
pub record Select (Sym : Type 0) : Type 0 where
  pub target : Sym
  pub cond : Option Sym

-- A node of the menu tree. Only symbols have selects.
pub record Node (Sym : Type 0) : Type 0 where
  pub item : Sym
  pub selects : List (Select Sym)

-- What the script asks of kconfiglib. `same` is the identity of symbols.
pub record Kconf (Sym : Type 0) : Type 0 where
  pub same : Sym → Sym → Bool
  pub name : Sym → Text
  pub str_value : Sym → Text
  pub visibility : Sym → ℕ
  pub syms : Text → Option Sym
  pub node_iter : List (Node Sym)

pub data Outcome : Type 0 where
  na : Outcome
  pass : Outcome
  fail : Outcome

pub data Fault : Type 0 where
  key_error : Fault
  attribute_error : Fault
  os_error : Fault

-- The class `Option` of the script.
pub record Opt (Sym : Type 0) : Type 0 where
  pub name : Text
  pub recommended : Text
  pub current : Option Text
  pub symbol : Option Sym
  pub outcome : Outcome

outcome_of : Text → Option Text → Outcome
outcome_of recommended none = na
outcome_of recommended (some current) = if text_eq recommended current then pass else fail

-- `Option.__init__()`
pub init : {Sym : Type 0} → Text → Text → Option Text → Option Sym → Opt Sym
unfolding outcome_of
init name recommended current symbol = record {
  name = name;
  recommended = recommended;
  current = current;
  symbol = symbol;
  outcome = outcome_of recommended current;
}

is_fail : Outcome → Bool
is_fail na = false
is_fail pass = false
is_fail fail = true

pub header : List Text
header =
    (centre 50 (codes "name")
      ++ b'|' ∷ centre 13 (codes "current")
      ++ b'|' ∷ centre 20 (codes "recommended"))
    ∷ (codes "||" ++ centre 28 (codes "check result") ++ 10 ∷ [])
    ∷ (times 116 b'=' ++ 10 ∷ [])
    ∷ []

shown_current : Option Text → Text
shown_current none = codes "None"
shown_current (some t) = t

-- The two texts that are printed for an option.
pub line : Text → Text → Text → List Text
line name current recommended =
    (codes "CONFIG_"
      ++ pad_right 43 name
      ++ b'|' ∷ centre 13 current
      ++ b'|' ∷ centre 20 recommended)
    ∷ (codes "||" ++ centre 28 (codes "FAIL") ++ 10 ∷ [])
    ∷ []

module _ {Sym : Type 0} (kconf : Kconf Sym) where
  row_options : List Text → List (Opt Sym)
  unfolding init
  row_options (name ∷ (recommended ∷ rest)) = elim (kconf.syms name) [
    | none ↦ init name recommended none none ∷ []
    | some s ↦ init name recommended (some (kconf.str_value s)) (some s) ∷ []
  ]
  row_options _ = []

  all_rows : List (List Text) → List (Opt Sym)
  unfolding row_options
  all_rows [] = []
  all_rows (row ∷ rows) = row_options row ++ all_rows rows

  -- `mark in select`
  pub is_in : Sym → Select Sym → Bool
  is_in mark select =
      kconf.same mark select.target
      || (elim select.cond [ none ↦ false | some c ↦ kconf.same mark c ])

  -- `kconf.syms[…] in select or …`, over the names that are left.
  is_marked : List Text → Select Sym → Run Text Fault Bool
  unfolding is_in
  is_marked [] select = pure false
  is_marked (name ∷ names) select = or_raise key_error (kconf.syms name) >>= λ mark.
      let rest = is_marked names select in if is_in mark select then pure true else rest

  marks : List Text
  marks = codes "EXPERIMENTAL" ∷ codes "DEPRECATED" ∷ codes "NOT_SECURE" ∷ []

  select_options : Sym → List (Select Sym) → Run Text Fault (List (Opt Sym))
  unfolding is_marked marks init
  select_options item [] = pure []
  select_options item (select ∷ selects) = is_marked marks select >>= λ marked.
      select_options item selects >>= λ options. pure (
        if marked
        then init (kconf.name item) (codes "n") (some (kconf.str_value item)) (some item) ∷ options
        else options)

  node_options : List (Node Sym) → Run Text Fault (List (Opt Sym))
  unfolding select_options
  node_options [] = pure []
  node_options (node ∷ nodes) = select_options node.item node.selects >>= λ options.
      node_options nodes >>= λ more. pure (options ++ more)

  -- `rows` is what the CSV reader gives, if the file can be opened.
  pub compare_with_hardened_conf : Option (List (List Text)) → Run Text Fault (List (Opt Sym))
  unfolding all_rows node_options
  compare_with_hardened_conf rows = or_raise os_error rows >>= λ rs.
      node_options kconf.node_iter >>= λ options. pure (all_rows rs ++ options)

  -- `opt.result == 'FAIL' and opt.symbol.visibility != 0`
  is_displayed : Opt Sym → Run Text Fault Bool
  unfolding is_fail
  is_displayed opt =
      if is_fail opt.outcome
      then (or_raise attribute_error opt.symbol >>= λ s. pure (not (kconf.visibility s == 0)))
      else pure false

  display_option : Opt Sym → Run Text Fault (Unit {0})
  unfolding is_displayed line shown_current
  display_option opt = is_displayed opt >>= λ displayed.
      if displayed
      then returns (line opt.name (shown_current opt.current) opt.recommended) tt
      else pure tt

  display_each : List (Opt Sym) → Run Text Fault (Unit {0})
  unfolding display_option
  display_each [] = emit (10 ∷ [])
  display_each (opt ∷ opts) = display_option opt >>= λ _. display_each opts

  pub display_results : List (Opt Sym) → Run Text Fault (Unit {0})
  unfolding header display_each
  display_results opts = after header (display_each opts)

-- `hardenconfig()`: what loading the configuration gives, unless it fails; the environment variable
-- `ZEPHYR_BASE`; and the rows of the file below a directory.
unfoldable pub hardenconfig :
    {Sym : Type 0}
    → Option (Kconf Sym)
    → Option Text
    → (Text → Option (List (List Text)))
    → Run Text Fault (Unit {0})
unfolding compare_with_hardened_conf display_results
hardenconfig load zephyr_base rows = or_raise os_error load >>= λ kconf.
    or_raise key_error zephyr_base >>= λ base.
    compare_with_hardened_conf kconf (rows base) >>= λ options. display_results kconf options
