-- ===== src/Kconfig/Checks.antt =====
-- The checks of scripts/kconfig/kconfig.py on a loaded configuration.
pub mod Promptless
pub mod Taken
use ve_root.Base.{
  tri_to_str, ℕ, zero, suc, Bool, true, false, not, ◌&&◌, ◌||◌, Option, none, some, List, [], ◌∷◌,
  ◌++◌, map, ltb, ◌==◌, if◌then◌else◌, text_eq,
}
use ve_root.Kconfig.{
  Text, Flag, deprecated, experimental, not_secure, Assigned, tri, text, Sym, Choice, Kconfiglib,
  Message, not_taken, not_selected, enabled, no_prompt, Event, warns, Run, returns, exits, raises,
  ◌>>=◌, ◌>>◌, pure, emit,
}

abbrev pub filter : {A : Type 0} → (A → Bool) → List A → List A
filter p [] = []
filter p (x ∷ xs) = if p x then x ∷ filter p xs else filter p xs

-- The loop `for x in xs`.
abbrev pub for_each : {Expr A : Type 0} → List A → (A → Run Expr (Unit {0})) → Run Expr (Unit {0})
for_each [] f = pure tt
for_each (x ∷ xs) f = f x >> for_each xs f

-- The text of the value that was assigned.
unfoldable pub assigned_text : Assigned → Option Text
assigned_text (tri none) = none
assigned_text (tri (some v)) = some (tri_to_str v)
assigned_text (text t) = t

unfoldable any : List Bool → Bool
any [] = false
any (b ∷ bs) = b || any bs

unfoldable is_assigned : Assigned → Bool
is_assigned (tri none) = false
is_assigned (text none) = false
is_assigned _ = true

module _ {Expr Kconf : Type 0} (lib : Kconfiglib Expr Kconf) where
  unfoldable pub promptless : Sym Expr → Bool
  unfolding any
  promptless sym = not (any sym.prompts)

  -- A symbol that only gets its value from others, but was assigned one.
  unfoldable pub assigned_promptless : Sym Expr → Bool
  unfolding promptless is_assigned
  assigned_promptless sym = is_assigned sym.assigned && promptless sym

  unfoldable pub refuse_promptless : List (Sym Expr) → Run Expr (Unit {0})
  refuse_promptless syms =
      for_each syms (λ sym. if assigned_promptless sym then exits [] (no_prompt sym) else pure tt)

  unfoldable pub check_no_promptless_assign : Kconf → Run Expr (Unit {0})
  unfolding refuse_promptless
  check_no_promptless_assign kconf = refuse_promptless (lib.unique_defined_syms kconf)

  unfoldable pub missing_deps : Sym Expr → List Expr
  missing_deps sym = elim sym.assigned [
    | tri (some v) ↦ filter (λ dep. ltb (lib.expr_value dep) v) (lib.split_and sym.direct_dep)
    | _ ↦ filter (λ dep. lib.expr_value dep == 0) (lib.split_and sym.direct_dep)
  ]

  -- The expression and its value, with parentheses around a compound one.
  unfoldable pub dep_text : Expr → Text
  dep_text expr =
      let estr = lib.expr_str expr in
      (if lib.is_tuple expr then b'(' ∷ (estr ++ (b')' ∷ [])) else estr)
      ++ (b' ' ∷ (b'(' ∷ (b'=' ∷ (tri_to_str (lib.expr_value expr) ++ (b')' ∷ [])))))

  unfoldable pub check_sym : Sym Expr → Run Expr (Unit {0})
  unfolding assigned_text missing_deps dep_text
  check_sym sym = if sym.in_choice then pure tt else elim (assigned_text sym.assigned) [
    | none ↦ pure tt
    | some t ↦
        if text_eq t sym.str_value
        then pure tt
        else emit (warns (not_taken sym t (map dep_text (missing_deps sym))))
  ]

  unfoldable pub check_assigned_sym_values : Kconf → Run Expr (Unit {0})
  unfolding check_sym
  check_assigned_sym_values kconf = for_each (lib.unique_defined_syms kconf) check_sym

  unfoldable pub check_choice : Choice Expr → Run Expr (Unit {0})
  check_choice choice = elim choice.user_selection [
    | none ↦ pure tt
    | some u ↦ if u.1 then pure tt else emit (warns (not_selected u.0 choice.selection))
  ]

  unfoldable pub check_assigned_choice_values : Kconf → Run Expr (Unit {0})
  unfolding check_choice
  check_assigned_choice_values kconf = for_each (lib.unique_choices kconf) check_choice

  pub first_name : List Expr → Option Text
  first_name [] = none
  first_name (e ∷ es) = lib.name_of e

  -- The name of an enabled selector.
  unfoldable pub warn_enabled : Flag → Expr → Run Expr (Unit {0})
  unfolding first_name
  warn_enabled flag selector = elim (first_name (lib.split_and selector)) [
    | none ↦ raises []
    | some name ↦ emit (warns (enabled flag name))
  ]

  unfoldable pub check_rev_dep : Flag → Expr → Run Expr (Unit {0})
  unfolding warn_enabled
  check_rev_dep flag dep_expr =
      if lib.is_n dep_expr
      then pure tt
      else for_each (filter (λ s. lib.expr_value s == 2) (lib.split_or dep_expr))
          (warn_enabled flag)

  -- With no such symbol the expression is `kconf.n`.
  unfoldable pub check_flag : Flag → Kconf → Run Expr (Unit {0})
  unfolding check_rev_dep
  check_flag flag kconf = elim (lib.syms kconf flag) [
    | none ↦ pure tt
    | some sym ↦ check_rev_dep flag sym.rev_dep
  ]

  unfoldable pub check_deprecated : Kconf → Run Expr (Unit {0})
  unfolding check_flag
  check_deprecated kconf = check_flag deprecated kconf

  unfoldable pub check_experimental : Kconf → Run Expr (Unit {0})
  unfolding check_flag
  check_experimental kconf = check_flag experimental kconf

  unfoldable pub check_not_secure : Kconf → Run Expr (Unit {0})
  unfolding check_flag
  check_not_secure kconf = check_flag not_secure kconf
