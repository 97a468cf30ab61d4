-- ===== src/Kconfig/Checks/Promptless.antt =====
-- `check_no_promptless_assign()` of scripts/kconfig/kconfig.py.
use ve_root.Base.{
  Every, ◌≡◌, refl, Bool, true, false, Bool-cases, inl, inr, none, some, List, [], ◌∷◌, ◌++◌, arith,
}
use ve_root.Kconfig.{
  Text, Assigned, tri, text, Sym, Kconfiglib, no_prompt, Run, returns, exits, raises, after,
}
use ve_root.Kconfig.Checks.{
  any, is_assigned, assigned_text, promptless, assigned_promptless, refuse_promptless,
  check_no_promptless_assign,
}

is_assigned-true : (a : Assigned) → is_assigned a ≡ true → (t : Text) × (assigned_text a ≡ some t)
unfolding is_assigned assigned_text
is_assigned-true (tri none) h = cc
is_assigned-true (tri (some v)) h = (_, refl)
is_assigned-true (text none) h = cc
is_assigned-true (text (some t)) h = (t, refl)

is_assigned-false : (a : Assigned) → is_assigned a ≡ false → assigned_text a ≡ none
unfolding is_assigned assigned_text
is_assigned-false (tri none) h = refl
is_assigned-false (tri (some v)) h = cc
is_assigned-false (text none) h = refl
is_assigned-false (text (some t)) h = cc

no_prompts : (bs : List Bool) → any bs ≡ false → Every (λ b. b ≡ false) bs
unfolding any
no_prompts [] h = tt
no_prompts (true ∷ bs) h = cc
no_prompts (false ∷ bs) h = (refl, no_prompts bs h)

some_prompt : (bs : List Bool) → any bs ≡ true → ¬ Every (λ b. b ≡ false) bs
unfolding any
some_prompt [] h k = cc
some_prompt (true ∷ bs) h k = let e : true ≡ false = k.0 in cc
some_prompt (false ∷ bs) h k = some_prompt bs h k.1

module _ {Expr Kconf : Type 0} (lib : Kconfiglib Expr Kconf) where
  -- The symbol has been assigned a value, and has no prompt in any of its places.
  abbrev pub IsIgnored : Sym Expr → Type 0
  IsIgnored sym =
      ((t : Text) × (assigned_text sym.assigned ≡ some t)) × Every (λ b. b ≡ false) sym.prompts

  IsIgnored-true : (sym : Sym Expr) → assigned_promptless lib sym ≡ true → IsIgnored sym
  unfolding assigned_promptless promptless
  IsIgnored-true sym h =
      let p : is_assigned sym.assigned ≡ true = ground arith in
      let q : any sym.prompts ≡ false = ground arith in
      (is_assigned-true sym.assigned p, no_prompts sym.prompts q)

  IsIgnored-false : (sym : Sym Expr) → assigned_promptless lib sym ≡ false → ¬ IsIgnored sym
  unfolding assigned_promptless promptless
  IsIgnored-false sym h v = elim (Bool-cases (any sym.prompts)) [
    | inl e ↦ some_prompt sym.prompts e v.1
    | inr e ↦
        let p : is_assigned sym.assigned ≡ false = ground arith in
        let q : assigned_text sym.assigned ≡ none = is_assigned-false sym.assigned p in
        let r = v.0.1 in cc
  ]

  -- What the check does: it ends silently if there is no ignored symbol, and otherwise with the
  -- error message on the first one.
  abbrev pub Refuses : List (Sym Expr) → Run Expr (Unit {0}) → Type 0
  Refuses syms (returns es _) = (es ≡ []) × Every (λ sym. ¬ IsIgnored sym) syms
  Refuses syms (exits es m) =
      (before : List (Sym Expr)) × (sym : Sym Expr) × (rest : List (Sym Expr)) × (syms
        ≡ before ++ (sym ∷ rest))
      × Every (λ s. ¬ IsIgnored s) before
      × IsIgnored sym
      × (m ≡ no_prompt sym)
      × (es ≡ [])
  Refuses syms (raises es) = ⊥

  Refuses-cons :
      (sym : Sym Expr) (syms : List (Sym Expr)) (r : Run Expr (Unit {0}))
      → ¬ IsIgnored sym
      → Refuses syms r
      → Refuses (sym ∷ syms) (after [] r)
  Refuses-cons sym syms (returns es _) fine h = (h.0, (fine, h.1))
  Refuses-cons sym syms (exits es m) fine (before, s, rest, e, fines, ignored, e', e'') =
      (sym ∷ before, s, rest, cc, (fine, fines), ignored, e', e'')
  Refuses-cons sym syms (raises es) fine h = h

  refuse_promptless-Refuses : (syms : List (Sym Expr)) → Refuses syms (refuse_promptless lib syms)
  unfolding refuse_promptless
  refuse_promptless-Refuses [] = (refl, tt)
  refuse_promptless-Refuses (sym ∷ syms) = elim (Bool-cases (assigned_promptless lib sym)) [
    | inl e ↦ rw e ([], sym, syms, refl, tt, IsIgnored-true sym e, refl, refl)
    | inr e ↦ rw e (
        Refuses-cons sym syms (refuse_promptless lib syms) (IsIgnored-false sym e)
          (refuse_promptless-Refuses syms))
  ]

  -- The check for assigned symbols without a prompt ends silently if no symbol is both assigned and
  -- without a prompt in every place, and otherwise with the error message on the first such symbol.
  pub check_no_promptless_assign-Refuses :
      (kconf : Kconf)
      → Refuses (lib.unique_defined_syms kconf) (check_no_promptless_assign lib kconf)
  unfolding check_no_promptless_assign
  check_no_promptless_assign-Refuses kconf =
      refuse_promptless-Refuses (lib.unique_defined_syms kconf)
