-- ===== src/Functions/Regs.antt =====
-- The functions of scripts/kconfig/kconfigfunctions.py on the registers of a node: addresses,
-- sizes, and the addresses of partitions.
pub mod Proper
pub mod Scale
use text.Mathlib.Text.{◌==◌ as str_eq}
use ve_root.Base.{
  ℕ, ◌+◌, Bool, Option, none, some, String, List, [], ◌∷◌, if◌then◌else◌, Text, codes,
}
use ve_root.Functions.{Result, ok, raises, ◌>>=◌}
use ve_root.Functions.Devicetree.{
  Reg, Edt, Answer, says, nothing, answer, print_int, print_hex, shifted, at_index, get_or,
}

-- `_node_reg_addr()` and `_node_reg_size()`, which differ in the field alone.
or_zero_shifted : Option Text → Option ℕ → Result ℕ
unfolding shifted
or_zero_shifted unit none = ok 0
or_zero_shifted unit (some n) = shifted n unit

reg_field : (Reg → Option ℕ) → Option Text → Reg → Result ℕ
unfolding or_zero_shifted
reg_field field unit reg = or_zero_shifted unit (field reg)

some_reg : (Reg → Option ℕ) → List Reg → Text → Option Text → Result ℕ
unfolding at_index reg_field
some_reg field [] index unit = ok 0
some_reg field (r ∷ rs) index unit = at_index (r ∷ rs) index (reg_field field unit)

module _ {Node : Type 0} where
  node_reg : (Reg → Option ℕ) → Edt Node → Option Node → Text → Option Text → Result ℕ
  unfolding some_reg
  node_reg field edt none index unit = ok 0
  node_reg field edt (some node) index unit = some_reg field (edt.regs node) index unit

  unfoldable pub node_reg_addr : Edt Node → Option Node → Text → Option Text → Result ℕ
  unfolding node_reg
  node_reg_addr edt node index unit = node_reg (λ r. r.addr) edt node index unit

  unfoldable pub node_reg_size : Edt Node → Option Node → Text → Option Text → Result ℕ
  unfolding node_reg
  node_reg_size edt node index unit = node_reg (λ r. r.size) edt node index unit

  -- `_dt_chosen_reg_addr()`, `_dt_chosen_reg_size()`
  pub chosen_reg_addr : Option (Edt Node) → Text → Text → Option Text → Result ℕ
  unfolding node_reg_addr
  chosen_reg_addr none chosen index unit = ok 0
  chosen_reg_addr (some edt) chosen index unit =
      node_reg_addr edt (edt.chosen_node chosen) index unit

  pub chosen_reg_size : Option (Edt Node) → Text → Text → Option Text → Result ℕ
  unfolding node_reg_size
  chosen_reg_size none chosen index unit = ok 0
  chosen_reg_size (some edt) chosen index unit =
      node_reg_size edt (edt.chosen_node chosen) index unit

  unfoldable pub dt_chosen_reg :
      Option (Edt Node) → String → Text → Option Text → Option Text → Result (Answer Node)
  unfolding chosen_reg_addr chosen_reg_size
  dt_chosen_reg edt name chosen index unit =
      let i = get_or (codes "0") index in
      if str_eq name "dt_chosen_reg_size_int"
      then print_int (chosen_reg_size edt chosen i unit)
      else if str_eq name "dt_chosen_reg_size_hex"
      then print_hex (chosen_reg_size edt chosen i unit)
      else if str_eq name "dt_chosen_reg_addr_int"
      then print_int (chosen_reg_addr edt chosen i unit)
      else if str_eq name "dt_chosen_reg_addr_hex"
      then print_hex (chosen_reg_addr edt chosen i unit)
      else ok nothing

  -- `_dt_chosen_partition_addr()`: the address in the grandparent and the own one.
  partition_in : Edt Node → Node → Option Node → Text → Option Text → Result ℕ
  unfolding node_reg_addr
  partition_in edt node none index unit = ok 0
  partition_in edt node (some p_node) index unit =
      node_reg_addr edt (edt.parent p_node) index unit >>= λ a.
      node_reg_addr edt (some node) (codes "0") unit >>= λ b. ok (a + b)

  partition_of : Edt Node → Option Node → Text → Option Text → Result ℕ
  unfolding partition_in
  partition_of edt none index unit = ok 0
  partition_of edt (some node) index unit = partition_in edt node (edt.parent node) index unit

  pub chosen_partition_addr : Option (Edt Node) → Text → Text → Option Text → Result ℕ
  unfolding partition_of
  chosen_partition_addr none chosen index unit = ok 0
  chosen_partition_addr (some edt) chosen index unit =
      partition_of edt (edt.chosen_node chosen) index unit

  unfoldable pub dt_chosen_partition_addr :
      Option (Edt Node) → String → Text → Option Text → Option Text → Result (Answer Node)
  unfolding chosen_partition_addr
  dt_chosen_partition_addr edt name chosen index unit =
      let i = get_or (codes "0") index in
      if str_eq name "dt_chosen_partition_addr_int"
      then print_int (chosen_partition_addr edt chosen i unit)
      else if str_eq name "dt_chosen_partition_addr_hex"
      then print_hex (chosen_partition_addr edt chosen i unit)
      else ok nothing

  -- `_dt_node_reg_addr()`, `_dt_node_reg_size()`: the address 0 also where there is no such node.
  pub path_reg_addr : Option (Edt Node) → Text → Text → Option Text → Result ℕ
  unfolding node_reg_addr
  path_reg_addr none path index unit = ok 0
  path_reg_addr (some edt) path index unit = node_reg_addr edt (edt.get_node path) index unit

  pub path_reg_size : Option (Edt Node) → Text → Text → Option Text → Result ℕ
  unfolding node_reg_size
  path_reg_size none path index unit = ok 0
  path_reg_size (some edt) path index unit = node_reg_size edt (edt.get_node path) index unit

  unfoldable pub dt_node_reg :
      Option (Edt Node) → String → Text → Option Text → Option Text → Result (Answer Node)
  unfolding path_reg_addr path_reg_size
  dt_node_reg edt name path index unit =
      let i = get_or (codes "0") index in
      if str_eq name "dt_node_reg_size_int"
      then print_int (path_reg_size edt path i unit)
      else if str_eq name "dt_node_reg_size_hex"
      then print_hex (path_reg_size edt path i unit)
      else if str_eq name "dt_node_reg_addr_int"
      then print_int (path_reg_addr edt path i unit)
      else if str_eq name "dt_node_reg_addr_hex"
      then print_hex (path_reg_addr edt path i unit)
      else ok nothing

  -- The path of the labelled node.
  labelled : Option (Edt Node) → Text → Option Text
  labelled none label = none
  labelled (some edt) label = elim (edt.label2node label) [
    | none ↦ none
    | some node ↦ some (edt.path node)
  ]

  or_zero : Text → Option Text → (Text → Result (Answer Node)) → Result (Answer Node)
  or_zero zero none f = answer zero
  or_zero zero (some path) f = f path

  unfoldable pub dt_nodelabel_reg :
      Option (Edt Node) → String → Text → Option Text → Option Text → Result (Answer Node)
  unfolding path_reg_addr path_reg_size labelled or_zero
  dt_nodelabel_reg edt name label index unit =
      let i = get_or (codes "0") index in
      let path = labelled edt label in
      if str_eq name "dt_nodelabel_reg_size_int"
      then or_zero (codes "0") path (λ p. print_int (path_reg_size edt p i unit))
      else if str_eq name "dt_nodelabel_reg_size_hex"
      then or_zero (codes "0x0") path (λ p. print_hex (path_reg_size edt p i unit))
      else if str_eq name "dt_nodelabel_reg_addr_int"
      then or_zero (codes "0") path (λ p. print_int (path_reg_addr edt p i unit))
      else if str_eq name "dt_nodelabel_reg_addr_hex"
      then or_zero (codes "0x0") path (λ p. print_hex (path_reg_addr edt p i unit))
      else ok nothing
