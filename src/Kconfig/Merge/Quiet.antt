-- ===== src/Kconfig/Merge/Quiet.antt =====
-- The files that `main()` opens for writing before its output, in scripts/kconfig/kconfig.py.
use ve_root.Base.{
  Every, ◌≡◌, refl, ◌⊎◌, inl, inr, Bool, true, false, not, ◌&&◌, List, [], ◌∷◌, ◌==◌, text_eq,
  if◌then◌else◌,
}
use ve_root.Kconfig.{
  Text, Sym, Flag, deprecated, experimental, not_secure, warn_deprecated, warn_experimental,
  Kconfiglib, Choice, prints, reports, pure, call,
}
use ve_root.Kconfig.Checks.{
  for_each, filter, first_name, assigned_text, assigned_promptless, refuse_promptless,
  check_no_promptless_assign, check_sym, check_assigned_sym_values, check_choice,
  check_assigned_choice_values, warn_enabled, check_rev_dep, check_flag, check_deprecated,
  check_experimental, check_not_secure,
}
use ve_root.Kconfig.Merge.{
  Args, is_on, load, merge, load_all, check_handwritten, check_all, report, refuse, handle_warnings,
  write, prepare, set_warnings,
}
use ve_root.Kconfig.Quiet.{
  QuietRun, Any, QuietRun-after, QuietRun-bind, QuietRun-weaken, QuietRun-for_each, QuietRun-if,
  QuietRun-call, QuietRun-elim,
}

module _ {Expr Kconf : Type 0} (lib : Kconfiglib Expr Kconf) where
  no_promptless-Quiet : (k : Kconf) → QuietRun lib (Any lib) (check_no_promptless_assign lib k)
  unfolding check_no_promptless_assign refuse_promptless
  no_promptless-Quiet k =
      QuietRun-for_each lib (lib.unique_defined_syms k) _
        (λ sym. QuietRun-if lib (Any lib) (assigned_promptless lib sym) _ _ tt (tt, tt))

  check_sym-Quiet : (sym : Sym Expr) → QuietRun lib (Any lib) (check_sym lib sym)
  unfolding check_sym
  check_sym-Quiet sym =
      QuietRun-if lib (Any lib) sym.in_choice _ _ (tt, tt)
        (QuietRun-elim lib (Any lib) (assigned_text sym.assigned) _ _ (tt, tt)
          (λ t. QuietRun-if lib (Any lib) (text_eq t sym.str_value) _ _ (tt, tt) ((tt, tt), tt)))

  check_choice-Quiet : (c : Choice Expr) → QuietRun lib (Any lib) (check_choice lib c)
  unfolding check_choice
  check_choice-Quiet c =
      QuietRun-elim lib (Any lib) c.user_selection _ _ (tt, tt)
        (λ u. QuietRun-if lib (Any lib) u.1 _ _ (tt, tt) ((tt, tt), tt))

  warn_enabled-Quiet : (flag : Flag) (e : Expr) → QuietRun lib (Any lib) (warn_enabled lib flag e)
  unfolding warn_enabled
  warn_enabled-Quiet flag e =
      QuietRun-elim lib (Any lib) (first_name lib (lib.split_and e)) _ _ tt (λ name. ((tt, tt), tt))

  check_flag-Quiet : (flag : Flag) (k : Kconf) → QuietRun lib (Any lib) (check_flag lib flag k)
  unfolding check_flag check_rev_dep
  check_flag-Quiet flag k =
      QuietRun-elim lib (Any lib) (lib.syms k flag) _ _ (tt, tt)
        λ sym.
          QuietRun-if lib (Any lib) (lib.is_n sym.rev_dep) _ _ (tt, tt)
            (QuietRun-for_each lib (filter (λ s. lib.expr_value s == 2) (lib.split_or sym.rev_dep))
              (warn_enabled lib flag) (warn_enabled-Quiet flag))

  check_handwritten-Quiet : (k : Kconf) → QuietRun lib (Any lib) (check_handwritten lib k)
  unfolding check_handwritten check_assigned_sym_values check_assigned_choice_values
  check_handwritten-Quiet k =
      QuietRun-bind lib (Any lib) (Any lib) (check_no_promptless_assign lib k) _
        (no_promptless-Quiet k)
        λ _ _.
          QuietRun-bind lib (Any lib) (Any lib)
            (for_each (lib.unique_defined_syms k) (check_sym lib)) _
            (QuietRun-for_each lib (lib.unique_defined_syms k) (check_sym lib) check_sym-Quiet)
            λ _ _.
              QuietRun-for_each lib (lib.unique_choices k) (check_choice lib) check_choice-Quiet

  check_all-Quiet : (args : Args) (k : Kconf) → QuietRun lib (Any lib) (check_all lib args k)
  unfolding check_all check_deprecated check_experimental check_not_secure
  check_all-Quiet args k =
      QuietRun-bind lib (Any lib) (Any lib)
        (if args.handwritten_input_configs then check_handwritten lib k else pure tt) _
        (QuietRun-if lib (Any lib) args.handwritten_input_configs _ _ (check_handwritten-Quiet k)
          (tt, tt))
        λ _ _.
          QuietRun-bind lib (Any lib) (Any lib)
            (if is_on (lib.syms k warn_deprecated) then check_flag lib deprecated k else pure tt) _
            (QuietRun-if lib (Any lib) (is_on (lib.syms k warn_deprecated)) _ _
              (check_flag-Quiet deprecated k) (tt, tt))
            λ _ _.
              QuietRun-bind lib (Any lib) (Any lib)
                (if is_on (lib.syms k warn_experimental)
                  then check_flag lib experimental k
                  else pure tt)
                _
                (QuietRun-if lib (Any lib) (is_on (lib.syms k warn_experimental)) _ _
                  (check_flag-Quiet experimental k) (tt, tt))
                λ _ _. check_flag-Quiet not_secure k

  load-Quiet :
      (replace : Bool) (k : Kconf) (file : Text) → QuietRun lib (Any lib) (load lib replace k file)
  unfolding load
  load-Quiet replace k file =
      QuietRun-bind lib (Any lib) (Any lib) (call (lib.load_config k file replace)) _
        (QuietRun-call lib (lib.load_config k file replace)) (λ r _. ((tt, tt), tt))

  merge-Quiet : (files : List Text) (k : Kconf) → QuietRun lib (Any lib) (merge lib files k)
  unfolding merge
  merge-Quiet [] k = (tt, tt)
  merge-Quiet (file ∷ files) k =
      QuietRun-bind lib (Any lib) (Any lib) (load lib false k file) (merge lib files)
        (load-Quiet false k file) (λ k' _. merge-Quiet files k')

  load_all-Quiet : (args : Args) → QuietRun lib (Any lib) (load_all lib args)
  unfolding load_all
  load_all-Quiet args =
      QuietRun-bind lib (Any lib) (Any lib)
        (call (lib.open_kconfig args.zephyr_base args.kconfig_file)) _
        (QuietRun-call lib (lib.open_kconfig args.zephyr_base args.kconfig_file))
        λ k _.
          QuietRun-bind lib (Any lib) (Any lib)
            (load lib true (set_warnings lib args k) args.first_config) _
            (load-Quiet true (set_warnings lib args k) args.first_config)
            λ k' _. merge-Quiet args.configs_in k'

  -- There is no warning, or the forced configuration is the only cause of all of them.
  abbrev pub AreTolerated : Args → List Text → Type 0
  AreTolerated args ws =
      (ws ≡ [])
      ⊎ ((args.forced_input_configs ≡ true) × Every (λ w. lib.set_more_than_once w ≡ true) ws)

  tolerated_step :
      (error_out once : Bool)
      → (if not error_out && not once then true else error_out) ≡ false
      → (error_out ≡ false) × (once ≡ true)
  tolerated_step true true h = cc
  tolerated_step true false h = cc
  tolerated_step false true h = (refl, refl)
  tolerated_step false false h = cc

  not-false : (b : Bool) → not b ≡ false → b ≡ true
  not-false true h = refl
  not-false false h = cc

  report-Quiet :
      (error_out : Bool) (ws : List Text)
      → QuietRun lib
          (λ b. b ≡ false → (error_out ≡ false) × Every (λ w. lib.set_more_than_once w ≡ true) ws)
          (report lib error_out ws)
  unfolding report
  report-Quiet error_out [] = ((tt, λ e. (e, tt)))
  report-Quiet error_out (w ∷ ws) =
      let e' = if not error_out && not (lib.set_more_than_once w) then true else error_out in
      QuietRun-after lib _ (reports w ∷ []) (report lib e' ws) (tt, tt)
        (QuietRun-weaken lib _ _ (report lib e' ws) (report-Quiet e' ws) λ b rest false_b.
          let h = rest false_b in
          let g = tolerated_step error_out (lib.set_more_than_once w) h.0 in (g.0, (g.1, h.1)))

  refuse-Quiet :
      (args : Args) (ws : List Text) (b : Bool)
      → (b ≡ false
          → (not args.forced_input_configs ≡ false)
            × Every (λ w. lib.set_more_than_once w ≡ true) ws)
      → QuietRun lib (λ _. AreTolerated args ws) (refuse lib b)
  unfolding refuse
  refuse-Quiet args ws true h = tt
  refuse-Quiet args ws false h =
      (tt, inr (not-false args.forced_input_configs (h refl).0, (h refl).1))

  handle_warnings-Quiet :
      (args : Args) (ws : List Text)
      → QuietRun lib (λ _. AreTolerated args ws) (handle_warnings lib args ws)
  unfolding handle_warnings
  handle_warnings-Quiet args [] = (tt, inl refl)
  handle_warnings-Quiet args (w ∷ ws) =
      QuietRun-bind lib _ (λ _. AreTolerated args (w ∷ ws))
        (report lib (not args.forced_input_configs) (w ∷ ws)) (refuse lib)
        (report-Quiet (not args.forced_input_configs) (w ∷ ws)) (refuse-Quiet args (w ∷ ws))

  evaluate-Quiet : (k : Kconf) → QuietRun lib (Any lib) (write lib lib.devnull k)
  unfolding write
  evaluate-Quiet k =
      QuietRun-bind lib (Any lib) (Any lib) (call (lib.write_config k lib.devnull)) _
        (QuietRun-call lib (lib.write_config k lib.devnull)) (λ r _. ((refl, tt), tt))

  pub prepare-Quiet :
      (args : Args) → QuietRun lib (λ k. AreTolerated args (lib.warnings k)) (prepare lib args)
  unfolding prepare write
  prepare-Quiet args =
      let Acceptable : Kconf → Type 0 = λ k. AreTolerated args (lib.warnings k) in
      QuietRun-after lib Acceptable (prints args.kconfig_file ∷ []) _ (tt, tt)
        (QuietRun-bind lib (Any lib) Acceptable (load_all lib args) _ (load_all-Quiet args) λ k _.
          QuietRun-bind lib (Any lib) Acceptable (check_all lib args k) _ (check_all-Quiet args k)
            λ _ _.
              QuietRun-bind lib (Any lib) Acceptable (write lib lib.devnull k) _ (evaluate-Quiet k)
                λ r _.
                  QuietRun-bind lib (λ _. AreTolerated args (lib.warnings r.1)) Acceptable
                    (handle_warnings lib args (lib.warnings r.1)) (λ _. pure r.1)
                    (handle_warnings-Quiet args (lib.warnings r.1)) (λ _ h. (tt, h)))
