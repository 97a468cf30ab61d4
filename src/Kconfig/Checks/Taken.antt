-- ===== src/Kconfig/Checks/Taken.antt =====
-- `check_assigned_sym_values()` of scripts/kconfig/kconfig.py.
use ve_root.Base.{
  ◌≡◌, ◌≢◌, ◌∙◌, false, Bool-cases, inl, inr, some, List, [], ◌∷◌, map, text_eq, text_eq_sound,
  Option-cases, text_eq_refl,
}
use ve_root.Kconfig.{
  Text, Sym, Kconfiglib, Event, warns, not_taken, Run, returns, exits, raises, ◌>>=◌, after,
}
use ve_root.Kconfig.Checks.{
  assigned_text, missing_deps, dep_text, check_sym, check_assigned_sym_values, for_each,
}

module _ {Expr Kconf : Type 0} (lib : Kconfiglib Expr Kconf) where
  -- A symbol outside choices that was assigned a value other than the one it has.
  abbrev pub IsLost : Sym Expr → Text → Type 0
  IsLost sym t =
      (sym.in_choice ≡ false) × (assigned_text sym.assigned ≡ some t) × (t ≢ sym.str_value)

  abbrev pub warning : Sym Expr → Text → Event Expr
  warning sym t = warns (not_taken sym t (map (dep_text lib) (missing_deps lib sym)))

  -- The warnings for the lost symbols of a list, in its order.
  pub data Reported : List (Sym Expr) → List (Event Expr) → Type 0 where
    no_more : Reported [] []
    lost :
        {sym : Sym Expr} {t : Text} {syms : List (Sym Expr)} {es : List (Event Expr)}
        → IsLost sym t
        → Reported syms es
        → Reported (sym ∷ syms) (warning sym t ∷ es)
    taken :
        {sym : Sym Expr} {syms : List (Sym Expr)} {es : List (Event Expr)}
        → ((t : Text) → ¬ IsLost sym t)
        → Reported syms es
        → Reported (sym ∷ syms) es

  abbrev pub Reports : List (Sym Expr) → Run Expr (Unit {0}) → Type 0
  Reports syms (returns es _) = Reported syms es
  Reports syms (exits es m) = ⊥
  Reports syms (raises es) = ⊥

  Reports-taken :
      (sym : Sym Expr) (syms : List (Sym Expr)) (r : Run Expr (Unit {0}))
      → ((t : Text) → ¬ IsLost sym t)
      → Reports syms r
      → Reports (sym ∷ syms) (after [] r)
  Reports-taken sym syms (returns es _) fine h = taken fine h
  Reports-taken sym syms (exits es m) fine h = h
  Reports-taken sym syms (raises es) fine h = h

  Reports-lost :
      (sym : Sym Expr) (t : Text) (syms : List (Sym Expr)) (r : Run Expr (Unit {0}))
      → IsLost sym t
      → Reports syms r
      → Reports (sym ∷ syms) (after (warning sym t ∷ []) r)
  Reports-lost sym t syms (returns es _) h k = lost h k
  Reports-lost sym t syms (exits es m) h k = k
  Reports-lost sym t syms (raises es) h k = k

  check_sym-Reports :
      (sym : Sym Expr) (syms : List (Sym Expr)) (m : Run Expr (Unit {0}))
      → Reports syms m
      → Reports (sym ∷ syms) (check_sym lib sym >>= λ _. m)
  unfolding check_sym
  check_sym-Reports sym syms m rest = elim (Bool-cases sym.in_choice) [
    | inl e ↦ simp e (Reports-taken sym syms m (λ t h. let k = h.0 in cc) rest)
    | inr e ↦ elim (Option-cases (assigned_text sym.assigned)) [
      | inl e' ↦ simp (e, e') (Reports-taken sym syms m (λ t h. let k = h.1 in cc) rest)
      | inr (t, e') ↦ elim (Bool-cases (text_eq t sym.str_value)) [
        | inl same ↦
            simp (e, e', same)
              (Reports-taken sym syms m
                (λ u h.
                  let p : t ≡ sym.str_value = text_eq_sound t sym.str_value same in
                  let k = h.1 in let q : u ≡ t = cc in h.2 (q ∙ p))
                rest)
        | inr other ↦
            simp (e, e', other)
              (Reports-lost sym t syms m (e, e', λ p. let q = text_eq_refl t in cc) rest)
      ]
    ]
  ]

  for_each-Reports : (syms : List (Sym Expr)) → Reports syms (for_each syms (check_sym lib))
  for_each-Reports [] = no_more
  for_each-Reports (sym ∷ syms) =
      check_sym-Reports sym syms (for_each syms (check_sym lib)) (for_each-Reports syms)

  -- The check of values never ends the script, and its warnings are, in the order of the symbols,
  -- one for each symbol outside choices that was assigned a value other than the one it has.
  pub check_assigned_sym_values-Reports :
      (kconf : Kconf)
      → Reports (lib.unique_defined_syms kconf) (check_assigned_sym_values lib kconf)
  unfolding check_assigned_sym_values
  check_assigned_sym_values-Reports kconf = for_each-Reports (lib.unique_defined_syms kconf)
