-- ===== src/Functions/Regs/Proper.antt =====
-- The results of the functions on registers (scripts/kconfig/kconfigfunctions.py).
use ve_root.Base.{ℕ, Option, none, some, List, [], ◌∷◌, Text, codes, pos}
use ve_root.Functions.{Result}
use ve_root.Functions.Numbers.{str, hex}
use ve_root.Functions.Devicetree.{Reg, Edt, Answer, get_or}
use ve_root.Functions.Regs.{
  reg_field, or_zero_shifted, some_reg, node_reg, partition_in, partition_of, dt_chosen_reg,
  dt_node_reg, dt_nodelabel_reg, dt_chosen_partition_addr, node_reg_addr, node_reg_size,
  chosen_reg_addr, chosen_reg_size, path_reg_addr, path_reg_size, chosen_partition_addr, labelled,
  or_zero,
}
use ve_root.Functions.Proper.{
  Sane, returned, Sane-bind, Sane-shifted, Sane-at_index, IsProper, a_text, IsProper-print,
}

Sane-or_zero_shifted : (unit : Option Text) (o : Option ℕ) → Sane (or_zero_shifted unit o)
unfolding or_zero_shifted
Sane-or_zero_shifted unit none = returned
Sane-or_zero_shifted unit (some n) = Sane-shifted n unit

Sane-some_reg :
    (field : Reg → Option ℕ) (rs : List Reg) (index : Text) (unit : Option Text)
    → Sane (some_reg field rs index unit)
unfolding some_reg reg_field
Sane-some_reg field [] index unit = returned
Sane-some_reg field (r ∷ rs) index unit =
    Sane-at_index (r ∷ rs) index (reg_field field unit)
      (λ reg. Sane-or_zero_shifted unit (field reg))

module _ {Node : Type 0} where
  Sane-node_reg :
      (field : Reg → Option ℕ) (edt : Edt Node) (o : Option Node) (index : Text)
      (unit : Option Text)
      → Sane (node_reg field edt o index unit)
  unfolding node_reg
  Sane-node_reg field edt none index unit = returned
  Sane-node_reg field edt (some node) index unit = Sane-some_reg field (edt.regs node) index unit

  Sane-addr :
      (edt : Edt Node) (o : Option Node) (index : Text) (unit : Option Text)
      → Sane (node_reg_addr edt o index unit)
  unfolding node_reg_addr
  Sane-addr edt o index unit = Sane-node_reg (λ r. r.addr) edt o index unit

  Sane-size :
      (edt : Edt Node) (o : Option Node) (index : Text) (unit : Option Text)
      → Sane (node_reg_size edt o index unit)
  unfolding node_reg_size
  Sane-size edt o index unit = Sane-node_reg (λ r. r.size) edt o index unit

  Sane-chosen_reg_addr :
      (edt : Option (Edt Node)) (a i : Text) (unit : Option Text)
      → Sane (chosen_reg_addr edt a i unit)
  unfolding chosen_reg_addr
  Sane-chosen_reg_addr none a i unit = returned
  Sane-chosen_reg_addr (some edt) a i unit = Sane-addr edt (edt.chosen_node a) i unit

  Sane-chosen_reg_size :
      (edt : Option (Edt Node)) (a i : Text) (unit : Option Text)
      → Sane (chosen_reg_size edt a i unit)
  unfolding chosen_reg_size
  Sane-chosen_reg_size none a i unit = returned
  Sane-chosen_reg_size (some edt) a i unit = Sane-size edt (edt.chosen_node a) i unit

  Sane-path_reg_addr :
      (edt : Option (Edt Node)) (a i : Text) (unit : Option Text)
      → Sane (path_reg_addr edt a i unit)
  unfolding path_reg_addr
  Sane-path_reg_addr none a i unit = returned
  Sane-path_reg_addr (some edt) a i unit = Sane-addr edt (edt.get_node a) i unit

  Sane-path_reg_size :
      (edt : Option (Edt Node)) (a i : Text) (unit : Option Text)
      → Sane (path_reg_size edt a i unit)
  unfolding path_reg_size
  Sane-path_reg_size none a i unit = returned
  Sane-path_reg_size (some edt) a i unit = Sane-size edt (edt.get_node a) i unit

  Sane-partition_in :
      (edt : Edt Node) (node : Node) (o : Option Node) (i : Text) (unit : Option Text)
      → Sane (partition_in edt node o i unit)
  unfolding partition_in
  Sane-partition_in edt node none i unit = returned
  Sane-partition_in edt node (some p_node) i unit =
      Sane-bind (Sane-addr edt (edt.parent p_node) i unit)
        λ a. Sane-bind (Sane-addr edt (some node) (codes "0") unit) (λ b. returned)

  Sane-partition_of :
      (edt : Edt Node) (o : Option Node) (i : Text) (unit : Option Text)
      → Sane (partition_of edt o i unit)
  unfolding partition_of
  Sane-partition_of edt none i unit = returned
  Sane-partition_of edt (some node) i unit = Sane-partition_in edt node (edt.parent node) i unit

  Sane-partition :
      (edt : Option (Edt Node)) (a i : Text) (unit : Option Text)
      → Sane (chosen_partition_addr edt a i unit)
  unfolding chosen_partition_addr
  Sane-partition none a i unit = returned
  Sane-partition (some edt) a i unit = Sane-partition_of edt (edt.chosen_node a) i unit

  or_zero-IsProper :
      (zero : Text) (o : Option Text) {f : Text → Result (Answer Node)}
      → ((p : Text) → IsProper (f p))
      → IsProper (or_zero zero o f)
  unfolding or_zero
  or_zero-IsProper zero none h = a_text
  or_zero-IsProper zero (some p) h = h p

  pub dt_chosen_reg_addr_int-IsProper :
      (edt : Option (Edt Node)) (a : Text) (i unit : Option Text)
      → IsProper (dt_chosen_reg edt "dt_chosen_reg_addr_int" a i unit)
  unfolding dt_chosen_reg
  dt_chosen_reg_addr_int-IsProper edt a i unit =
      IsProper-print (λ n. str (pos n)) (Sane-chosen_reg_addr edt a (get_or (codes "0") i) unit)

  pub dt_chosen_reg_addr_hex-IsProper :
      (edt : Option (Edt Node)) (a : Text) (i unit : Option Text)
      → IsProper (dt_chosen_reg edt "dt_chosen_reg_addr_hex" a i unit)
  unfolding dt_chosen_reg
  dt_chosen_reg_addr_hex-IsProper edt a i unit =
      IsProper-print (λ n. hex (pos n)) (Sane-chosen_reg_addr edt a (get_or (codes "0") i) unit)

  pub dt_chosen_reg_size_int-IsProper :
      (edt : Option (Edt Node)) (a : Text) (i unit : Option Text)
      → IsProper (dt_chosen_reg edt "dt_chosen_reg_size_int" a i unit)
  unfolding dt_chosen_reg
  dt_chosen_reg_size_int-IsProper edt a i unit =
      IsProper-print (λ n. str (pos n)) (Sane-chosen_reg_size edt a (get_or (codes "0") i) unit)

  pub dt_chosen_reg_size_hex-IsProper :
      (edt : Option (Edt Node)) (a : Text) (i unit : Option Text)
      → IsProper (dt_chosen_reg edt "dt_chosen_reg_size_hex" a i unit)
  unfolding dt_chosen_reg
  dt_chosen_reg_size_hex-IsProper edt a i unit =
      IsProper-print (λ n. hex (pos n)) (Sane-chosen_reg_size edt a (get_or (codes "0") i) unit)

  pub dt_node_reg_addr_int-IsProper :
      (edt : Option (Edt Node)) (a : Text) (i unit : Option Text)
      → IsProper (dt_node_reg edt "dt_node_reg_addr_int" a i unit)
  unfolding dt_node_reg
  dt_node_reg_addr_int-IsProper edt a i unit =
      IsProper-print (λ n. str (pos n)) (Sane-path_reg_addr edt a (get_or (codes "0") i) unit)

  pub dt_node_reg_addr_hex-IsProper :
      (edt : Option (Edt Node)) (a : Text) (i unit : Option Text)
      → IsProper (dt_node_reg edt "dt_node_reg_addr_hex" a i unit)
  unfolding dt_node_reg
  dt_node_reg_addr_hex-IsProper edt a i unit =
      IsProper-print (λ n. hex (pos n)) (Sane-path_reg_addr edt a (get_or (codes "0") i) unit)

  pub dt_node_reg_size_int-IsProper :
      (edt : Option (Edt Node)) (a : Text) (i unit : Option Text)
      → IsProper (dt_node_reg edt "dt_node_reg_size_int" a i unit)
  unfolding dt_node_reg
  dt_node_reg_size_int-IsProper edt a i unit =
      IsProper-print (λ n. str (pos n)) (Sane-path_reg_size edt a (get_or (codes "0") i) unit)

  pub dt_node_reg_size_hex-IsProper :
      (edt : Option (Edt Node)) (a : Text) (i unit : Option Text)
      → IsProper (dt_node_reg edt "dt_node_reg_size_hex" a i unit)
  unfolding dt_node_reg
  dt_node_reg_size_hex-IsProper edt a i unit =
      IsProper-print (λ n. hex (pos n)) (Sane-path_reg_size edt a (get_or (codes "0") i) unit)

  pub dt_nodelabel_reg_addr_int-IsProper :
      (edt : Option (Edt Node)) (a : Text) (i unit : Option Text)
      → IsProper (dt_nodelabel_reg edt "dt_nodelabel_reg_addr_int" a i unit)
  unfolding dt_nodelabel_reg
  dt_nodelabel_reg_addr_int-IsProper edt a i unit = or_zero-IsProper _ (labelled edt a) (λ p.
      IsProper-print (λ n. str (pos n)) (Sane-path_reg_addr edt p (get_or (codes "0") i) unit))

  pub dt_nodelabel_reg_addr_hex-IsProper :
      (edt : Option (Edt Node)) (a : Text) (i unit : Option Text)
      → IsProper (dt_nodelabel_reg edt "dt_nodelabel_reg_addr_hex" a i unit)
  unfolding dt_nodelabel_reg
  dt_nodelabel_reg_addr_hex-IsProper edt a i unit = or_zero-IsProper _ (labelled edt a) (λ p.
      IsProper-print (λ n. hex (pos n)) (Sane-path_reg_addr edt p (get_or (codes "0") i) unit))

  pub dt_nodelabel_reg_size_int-IsProper :
      (edt : Option (Edt Node)) (a : Text) (i unit : Option Text)
      → IsProper (dt_nodelabel_reg edt "dt_nodelabel_reg_size_int" a i unit)
  unfolding dt_nodelabel_reg
  dt_nodelabel_reg_size_int-IsProper edt a i unit = or_zero-IsProper _ (labelled edt a) (λ p.
      IsProper-print (λ n. str (pos n)) (Sane-path_reg_size edt p (get_or (codes "0") i) unit))

  pub dt_nodelabel_reg_size_hex-IsProper :
      (edt : Option (Edt Node)) (a : Text) (i unit : Option Text)
      → IsProper (dt_nodelabel_reg edt "dt_nodelabel_reg_size_hex" a i unit)
  unfolding dt_nodelabel_reg
  dt_nodelabel_reg_size_hex-IsProper edt a i unit = or_zero-IsProper _ (labelled edt a) (λ p.
      IsProper-print (λ n. hex (pos n)) (Sane-path_reg_size edt p (get_or (codes "0") i) unit))

  pub dt_chosen_partition_addr_int-IsProper :
      (edt : Option (Edt Node)) (a : Text) (i unit : Option Text)
      → IsProper (dt_chosen_partition_addr edt "dt_chosen_partition_addr_int" a i unit)
  unfolding dt_chosen_partition_addr
  dt_chosen_partition_addr_int-IsProper edt a i unit =
      IsProper-print (λ n. str (pos n)) (Sane-partition edt a (get_or (codes "0") i) unit)

  pub dt_chosen_partition_addr_hex-IsProper :
      (edt : Option (Edt Node)) (a : Text) (i unit : Option Text)
      → IsProper (dt_chosen_partition_addr edt "dt_chosen_partition_addr_hex" a i unit)
  unfolding dt_chosen_partition_addr
  dt_chosen_partition_addr_hex-IsProper edt a i unit =
      IsProper-print (λ n. hex (pos n)) (Sane-partition edt a (get_or (codes "0") i) unit)
