-- ===== src/Functions/Compats/Search.antt =====
-- The searches over enabled nodes (scripts/kconfig/kconfigfunctions.py).
use ve_root.Base.{
  text_eq_refl, text_eq, ℕ, suc, ◌≡◌, ◌≢◌, ◌⊎◌, inl, inr, refl, ap, arith, false, Bool-cases,
  Option, none, some, List, [], ◌∷◌, length, pos, Text, codes,
}
use ve_root.Functions.{Result, ok}
use ve_root.Functions.Numbers.{str}
use ve_root.Functions.Devicetree.{Prop, Edt, Answer, says, answer}
use ve_root.Functions.Compats.{
  any_node, is_key, has_prop, has_value, lacks_prop, dt_compat_enabled, dt_compat_enabled_num,
  after_enabled_num, dt_compat_any_has_prop, dt_compat_any_not_has_prop,
}

str_zero : str (pos 0) ≡ codes "0"
unfolding str
str_zero = refl

not-has_value :
    {Node : Type 0} (edt : Edt Node) (o : Option (Prop Node))
    → has_value none edt o ≡ false
    → o ≡ none
unfolding has_value
not-has_value edt none h = refl
not-has_value edt (some p) h = cc

letter : {Node : Type 0} → Result (Answer Node) → ℕ
letter (ok (says (c ∷ s))) = c
letter _ = 0

module _ {Node : Type 0} where
  -- How the dictionary of enabled nodes is built: a key has its nodes, of which there is one at
  -- least, and any other index gives no nodes.
  abbrev pub IsIndex : Edt Node → Type 0
  IsIndex edt =
      (compat : Text)
      → ((edt.compat2okay compat ≡ none) × (edt.okay_nodes compat ≡ []))
        ⊎ ((node : Node) × (nodes : List Node) × (edt.compat2okay compat ≡ some (node ∷ nodes))
            × (edt.okay_nodes compat ≡ node ∷ nodes))

  num-IsEnabled :
      (edt : Edt Node) (compat : Text)
      → IsIndex edt
      → ((dt_compat_enabled (some edt) compat ≡ answer (codes "y"))
          × ((n : ℕ) × (dt_compat_enabled_num (some edt) compat ≡ answer (str (pos (suc n))))))
        ⊎ ((dt_compat_enabled (some edt) compat ≡ answer (codes "n"))
            × (dt_compat_enabled_num (some edt) compat ≡ answer (codes "0")))
  unfolding dt_compat_enabled dt_compat_enabled_num
  num-IsEnabled edt compat index = elim (index compat) [
    | inl (e, e') ↦ inr ((simp (e, is_key)), rw (e', str_zero))
    | inr (node, nodes, e, e') ↦ inl ((simp (e, is_key)), (length nodes, simp e'))
  ]

  after-same :
      (edt : Edt Node) (compat c : Text)
      → text_eq c compat ≡ false
      → dt_compat_enabled (some (after_enabled_num edt compat)) c ≡ dt_compat_enabled (some edt) c
  unfolding dt_compat_enabled after_enabled_num
  after-same edt compat c other = rw (dt_compat_enabled, after_enabled_num, other) refl

  after-y :
      (edt : Edt Node) (compat : Text)
      → dt_compat_enabled (some (after_enabled_num edt compat)) compat ≡ answer (codes "y")
  unfolding dt_compat_enabled after_enabled_num is_key
  after-y edt compat = rw (dt_compat_enabled, after_enabled_num, text_eq_refl compat) refl

  -- If the dictionary of enabled nodes has one node at least for each key, and no nodes for
  -- another index: either there is said to be an enabled node and the printed number is positive,
  -- or neither. Printing the number keeps all numbers, and what is said of other compatibles, but
  -- from then on there is said to be an enabled node of this one.
  pub dt_compat_enabled_num_lem :
      (edt : Edt Node) (compat : Text)
      → IsIndex edt
      → (((dt_compat_enabled (some edt) compat ≡ answer (codes "y"))
            × ((n : ℕ) × (dt_compat_enabled_num (some edt) compat ≡ answer (str (pos (suc n))))))
          ⊎ ((dt_compat_enabled (some edt) compat ≡ answer (codes "n"))
              × (dt_compat_enabled_num (some edt) compat ≡ answer (codes "0"))))
        × ((c : Text)
            → dt_compat_enabled_num (some (after_enabled_num edt compat)) c
              ≡ dt_compat_enabled_num (some edt) c)
        × ((c : Text)
            → text_eq c compat ≡ false
            → dt_compat_enabled (some (after_enabled_num edt compat)) c
              ≡ dt_compat_enabled (some edt) c)
        × (dt_compat_enabled (some (after_enabled_num edt compat)) compat ≡ answer (codes "y"))
  unfolding dt_compat_enabled_num after_enabled_num
  dt_compat_enabled_num_lem edt compat index =
      (num-IsEnabled edt compat index, λ c. refl, after-same edt compat, after-y edt compat)

  n_ne_y : answer {Node = Node} (codes "n") ≢ answer (codes "y")
  unfolding letter
  n_ne_y e = let k : ◌≡◌ {A = ℕ} b'n' b'y' = ap letter e in absurd (omega arith)

  -- If the dictionary of enabled nodes has one node at least for each key, and no nodes for
  -- another index, and there is said to be an enabled node of the compatible: one of the two
  -- searches, for a node with the property and for one without, finds a node.
  pub dt_compat_any_prop :
      (edt : Edt Node) (compat prop : Text)
      → IsIndex edt
      → dt_compat_enabled (some edt) compat ≡ answer (codes "y")
      → (dt_compat_any_has_prop (some edt) compat prop none ≡ answer (codes "y"))
        ⊎ (dt_compat_any_not_has_prop (some edt) compat prop ≡ answer (codes "y"))
  unfolding dt_compat_enabled dt_compat_any_has_prop dt_compat_any_not_has_prop
  dt_compat_any_prop edt compat prop index enabled = elim (index compat) [
    | inl (e, e') ↦ absurd (n_ne_y (rw (e, is_key) at enabled))
    | inr (node, nodes, e, e') ↦ elim (Bool-cases (has_prop prop none edt node)) [
      | inl has ↦ inl (simp (e, is_key, e', any_node, has))
      | inr lacks ↦
          let gone : edt.props node prop ≡ none =
            not-has_value edt (edt.props node prop) (unfold has_prop in lacks) in
          inr (simp (e, is_key, e', any_node, lacks_prop, gone))
    ]
  ]
