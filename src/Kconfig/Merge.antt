-- ===== src/Kconfig/Merge.antt =====
-- `main()` of scripts/kconfig/kconfig.py, on parsed arguments.
pub mod Quiet
pub mod Files
pub mod Writes
use ve_root.Base.{
  lt_text, ℕ, zero, suc, Bool, true, false, not, ◌&&◌, ◌||◌, Option, none, some, List, [], ◌∷◌,
  ◌++◌, map, ltb, ◌==◌, if◌then◌else◌, text_eq,
}
use ve_root.Kconfig.{
  Text, Flag, warn_deprecated, warn_experimental, Sym, Kconfiglib, Message, kconfig_warnings, Event,
  prints, reports, writes_config, writes_header, writes_list, Run, returns, exits, raises, ◌>>=◌,
  ◌>>◌, pure, emit, call,
}
use ve_root.Kconfig.Checks.{
  check_no_promptless_assign, check_assigned_sym_values, check_assigned_choice_values,
  check_deprecated, check_experimental, check_not_secure,
}

-- The command line. The first of the input files stands apart, since there is at least one.
pub record Args : Type 0 where
  pub handwritten_input_configs : Bool
  pub forced_input_configs : Bool
  pub zephyr_base : Option Text
  pub kconfig_file : Text
  pub config_out : Text
  pub header_out : Text
  pub kconfig_list_out : Text
  pub first_config : Text
  pub configs_in : List Text

-- `sorted()` of a set: the texts in the order of their code points, without repetition.
insert_path : Text → List Text → List Text
unfolding lt_text
insert_path p [] = p ∷ []
insert_path p (q ∷ qs) =
    if text_eq p q then q ∷ qs else if lt_text p q then p ∷ (q ∷ qs) else q ∷ insert_path p qs

pub sorted_set : List Text → List Text
unfolding insert_path
sorted_set [] = []
sorted_set (p ∷ ps) = insert_path p (sorted_set ps)

-- Whether the setting is turned on, or is not there.
abbrev is_on : {Expr : Type 0} → Option (Sym Expr) → Bool
is_on none = true
is_on (some sym) = sym.tri_value == 2

module _ {Expr Kconf : Type 0} (lib : Kconfiglib Expr Kconf) where
  unfoldable pub write_kconfig_filenames : Kconf → Text → Run Expr (Unit {0})
  unfolding sorted_set
  write_kconfig_filenames kconf path = do
    call (lib.open_list kconf path)
    emit (writes_list path (sorted_set (map (lib.real_path kconf) (lib.kconfig_filenames kconf))))

  set_warnings : Args → Kconf → Kconf
  set_warnings args kconf =
      let k =
        if args.handwritten_input_configs
        then lib.no_warn_assign_redun (lib.no_warn_assign_override (lib.warn_assign_undef kconf))
        else kconf in
      if args.forced_input_configs then lib.no_warn_assign_redun k else k

  load : Bool → Kconf → Text → Run Expr Kconf
  load replace kconf file = do
    r ← call (lib.load_config kconf file replace)
    emit (prints r.0)
    pure r.1

  merge : List Text → Kconf → Run Expr Kconf
  unfolding load
  merge [] kconf = pure kconf
  merge (file ∷ files) kconf = load false kconf file >>= merge files

  load_all : Args → Run Expr Kconf
  unfolding set_warnings merge load
  load_all args = do
    k ← call (lib.open_kconfig args.zephyr_base args.kconfig_file)
    k' ← load true (set_warnings args k) args.first_config
    merge args.configs_in k'

  check_handwritten : Kconf → Run Expr (Unit {0})
  check_handwritten kconf = do
    check_no_promptless_assign lib kconf
    check_assigned_sym_values lib kconf
    check_assigned_choice_values lib kconf

  check_all : Args → Kconf → Run Expr (Unit {0})
  unfolding check_handwritten
  check_all args kconf = do
    if args.handwritten_input_configs then check_handwritten kconf else pure tt
    if is_on (lib.syms kconf warn_deprecated) then check_deprecated lib kconf else pure tt
    if is_on (lib.syms kconf warn_experimental) then check_experimental lib kconf else pure tt
    check_not_secure lib kconf

  -- Prints the warnings, and says whether they are an error. The Boolean is `error_out` so far.
  report : Bool → List Text → Run Expr Bool
  report error_out [] = pure error_out
  report error_out (w ∷ ws) = do
    emit (reports w)
    report (if not error_out && not (lib.set_more_than_once w) then true else error_out) ws

  refuse : Bool → Run Expr (Unit {0})
  refuse true = exits [] kconfig_warnings
  refuse false = pure tt

  handle_warnings : Args → List Text → Run Expr (Unit {0})
  unfolding report refuse
  handle_warnings args [] = pure tt
  handle_warnings args (w ∷ ws) = report (not args.forced_input_configs) (w ∷ ws) >>= refuse

  -- Writing the configuration evaluates its symbols, which adds warnings.
  write : Text → Kconf → Run Expr (Text × Kconf)
  write path kconf = do r ← call (lib.write_config kconf path); emit (writes_config path); pure r

  -- Up to the warnings: the configuration that the output is made from.
  pub prepare : Args → Run Expr Kconf
  unfolding load_all check_all handle_warnings write
  prepare args = do
    emit (prints args.kconfig_file)
    k ← load_all args
    check_all args k
    r ← write lib.devnull k
    handle_warnings args (lib.warnings r.1)
    pure r.1

  write_outputs : Args → Kconf → Run Expr (Unit {0})
  unfolding write
  write_outputs args kconf = do
    r ← write args.config_out kconf
    emit (prints r.0)
    h ← call (lib.write_autoconf r.1 args.header_out)
    emit (writes_header args.header_out)
    emit (prints h.0)
    write_kconfig_filenames h.1 args.kconfig_list_out

  unfoldable pub main : Args → Run Expr (Unit {0})
  unfolding prepare write_outputs
  main args = prepare args >>= write_outputs args
