-- ===== src/Functions/Regs/Scale.antt =====
-- The numbers that the register functions give (scripts/kconfig/kconfigfunctions.py).
use ve_root.Base.{
  ℕ, zero, suc, ◌+◌, ◌*◌, ◌/◌, ◌^◌, ◌≤◌, ◌<◌, ◌≡◌, false, Option, some, List, [], ◌∷◌, length,
  get_elem?, pos, Text, arith, leb,
}
use ve_root.Functions.{ok}
use ve_root.Functions.Numbers.{str, hex}
use ve_root.Functions.Numbers.RoundTrip.{int_decimal-str}
use ve_root.Functions.Devicetree.{Reg, Edt, answer, shifted, at_index, element, dt_units_to_scale}
use ve_root.Functions.Regs.{
  or_zero_shifted, reg_field, some_reg, node_reg_addr, path_reg_addr, dt_node_reg,
}

power_pos : (k : ℕ) → 0 < 2 ^ k
power_pos zero = omega arith
power_pos (suc k) = omega (arith, power_pos k)

-- The address in units of `2 ^ k`, rounded down.
abbrev pub IsScaled : ℕ → ℕ → ℕ → Type 0
IsScaled addr k n = (n * 2 ^ k ≤ addr) × (addr < (n + 1) * 2 ^ k)

IsScaled-div : (addr k : ℕ) → IsScaled addr k (addr / 2 ^ k)
IsScaled-div addr k = let p : 0 < 2 ^ k = power_pos k in grind arith

get_elem?-bound :
    {A : Type 0} (xs : List A) (i : ℕ) {x : A} → get_elem? xs i ≡ some x → i < length xs
get_elem?-bound [] i h = cc
get_elem?-bound (y ∷ xs) zero h = omega arith
get_elem?-bound (y ∷ xs) (suc i) h = omega (arith, get_elem?-bound xs i h)

some_reg_lem :
    (field : Reg → Option ℕ) (rs : List Reg) (i : ℕ) (unit : Option Text) {reg : Reg}
    → get_elem? rs i ≡ some reg
    → some_reg field rs (str (pos i)) unit ≡ reg_field field unit reg
unfolding some_reg at_index element
some_reg_lem field [] i unit h = cc
some_reg_lem field (r ∷ rs) i unit h =
    let lt = get_elem?-bound (r ∷ rs) i h in
    let inside : leb (length (r ∷ rs)) i ≡ false = ground arith in
    rw (int_decimal-str (pos i), inside, h)

reg_field_lem :
    (unit : Option Text) (k addr : ℕ) (reg : Reg)
    → reg.addr ≡ some addr
    → dt_units_to_scale unit ≡ some k
    → reg_field (λ r. r.addr) unit reg ≡ ok (addr / 2 ^ k)
unfolding reg_field or_zero_shifted shifted
reg_field_lem unit k addr reg h scale = simp (h, scale)

module _ {Node : Type 0} where
  path_reg :
      (edt : Edt Node) (path : Text) (unit : Option Text) (i k addr : ℕ) (node : Node) (reg : Reg)
      → edt.get_node path ≡ some node
      → get_elem? (edt.regs node) i ≡ some reg
      → reg.addr ≡ some addr
      → dt_units_to_scale unit ≡ some k
      → path_reg_addr (some edt) path (str (pos i)) unit ≡ ok (addr / 2 ^ k)
  unfolding path_reg_addr node_reg_addr
  path_reg edt path unit i k addr node reg found at some_addr scale =
      rw (found, some_reg_lem (λ r. r.addr) (edt.regs node) i unit at)
        (rw (reg_field_lem unit k addr reg some_addr scale))

  -- For a node at the path with a register of the given index, which has an address, and a known
  -- unit: the decimal and the hexadecimal function print the same number, the address in that
  -- unit, rounded down.
  pub dt_node_reg-IsScaled :
      (edt : Edt Node) (path : Text) (unit : Option Text) (i k addr : ℕ) (node : Node) (reg : Reg)
      → edt.get_node path ≡ some node
      → get_elem? (edt.regs node) i ≡ some reg
      → reg.addr ≡ some addr
      → dt_units_to_scale unit ≡ some k
      → (n : ℕ) × IsScaled addr k n
        × (dt_node_reg (some edt) "dt_node_reg_addr_int" path (some (str (pos i))) unit
            ≡ answer (str (pos n)))
        × (dt_node_reg (some edt) "dt_node_reg_addr_hex" path (some (str (pos i))) unit
            ≡ answer (hex (pos n)))
  unfolding dt_node_reg
  dt_node_reg-IsScaled edt path unit i k addr node reg found at some_addr scale =
      let e = path_reg edt path unit i k addr node reg found at some_addr scale in
      (addr / 2 ^ k, IsScaled-div addr k, rw e, rw e)
