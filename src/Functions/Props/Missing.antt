-- ===== src/Functions/Props/Missing.antt =====
-- `dt_nodelabel_int_prop()` of scripts/kconfig/kconfigfunctions.py on a node without the property.
use ve_root.Base.{zero, suc, ◌≡◌, ◌⊎◌, inl, inr, refl, Option, none, some, Text, codes}
use ve_root.Functions.{Result, raises, key_error}
use ve_root.Functions.Devicetree.{Prop, Edt, Answer, answer}
use ve_root.Functions.Props.{is_there, int_or_zero, dt_nodelabel_has_prop, dt_nodelabel_int_prop}

module _ {Node : Type 0} where
  abbrev Outcome : Result (Answer Node) → Result (Answer Node) → Type 0
  Outcome has int =
      ((has ≡ answer (codes "y")) × ((t : Text) × (int ≡ answer t)))
      ⊎ ((has ≡ answer (codes "n")) × (int ≡ raises key_error))

  outcome : (p : Option (Prop Node)) → Outcome (is_there p) (int_or_zero p)
  unfolding is_there int_or_zero
  outcome none = inr (refl, refl)
  outcome (some (Prop.int zero)) = inl (refl, (_, refl))
  outcome (some (Prop.int (suc n))) = inl (refl, (_, refl))
  outcome (some (Prop.array ns)) = inl (refl, (_, refl))
  outcome (some (Prop.boolean b)) = inl (refl, (_, refl))
  outcome (some (Prop.string t)) = inl (refl, (_, refl))
  outcome (some (Prop.phandle n)) = inl (refl, (_, refl))
  outcome (some (Prop.phandle_array es)) = inl (refl, (_, refl))
  outcome (some Prop.other) = inl (refl, (_, refl))

  -- With a node of the label: either `dt_nodelabel_has_prop` says "y", and `dt_nodelabel_int_prop`
  -- returns a text, or it says "n", and `dt_nodelabel_int_prop` raises a `KeyError`.
  pub dt_nodelabel_int_prop_lem :
      (edt : Edt Node) (label prop : Text) (node : Node)
      → edt.label2node label ≡ some node
      → Outcome
          (dt_nodelabel_has_prop (some edt) label prop)
          (dt_nodelabel_int_prop (some edt) label prop)
  unfolding dt_nodelabel_has_prop dt_nodelabel_int_prop
  dt_nodelabel_int_prop_lem edt label prop node found = rw found (outcome (edt.props node prop))
