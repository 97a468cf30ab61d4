-- ===== src/Functions/Tests.antt =====
-- Instances of the theorems on scripts/kconfig/kconfigfunctions.py, and runs of its functions.
use ve_root.Base.{
  ℕ, zero, suc, ◌/◌, true, false, ◌≡◌, ◌⊎◌, inl, inr, refl, none, some, [], ◌∷◌, if◌then◌else◌, ℤ,
  pos, negsuc, Text, text_eq, codes, map, Bool-cases,
}
use ve_root.Functions.{Result, ok, raises, key_error, zero_division_error}
use ve_root.Functions.Numbers.{str, hex, int_any}
use ve_root.Functions.Lists.{split, join}
use ve_root.Functions.Arith.{Num, int, float, Floats, items, arith, inc_dec, read_all}
use ve_root.Functions.Arith.Laws.{divs, SameNumber, arith-SameNumber, inc_dec_undo}
use ve_root.Functions.Arith.Sound.{IsFloats}
use ve_root.Functions.Proper.{Sane, returned, plain}
use ve_root.Functions.Strings.{normalize_upper}
use ve_root.Functions.Devicetree.{Prop, Edt, answer, dt_units_to_scale}
use ve_root.Functions.Regs.{dt_node_reg}
use ve_root.Functions.Regs.Scale.{IsScaled, dt_node_reg-IsScaled}
use ve_root.Functions.Props.{dt_nodelabel_has_prop, dt_nodelabel_int_prop}
use ve_root.Functions.Props.Missing.{dt_nodelabel_int_prop_lem}
use ve_root.Functions.Compats.{dt_compat_enabled, dt_compat_enabled_num, after_enabled_num}
use ve_root.Functions.Compats.Search.{IsIndex, dt_compat_enabled_num_lem}
use ve_root.Functions.Entry.{AllCallable}
use ve_root.Functions.Table.{functions}
use ve_root.Functions.Table.Calls.{functions-IsCallable}

-- Floats that are integers: a quotient is rounded, and one of a negative number is 0.
abbrev sample_truediv : Num ℤ → ℤ → Result (Num ℤ)
sample_truediv a (pos zero) = raises zero_division_error
sample_truediv (int (pos n)) (pos (suc d)) = ok (float (pos (n / suc d)))
sample_truediv a b = ok (float (pos 0))

abbrev sample_floats : Floats ℤ
sample_floats = record { truediv = sample_truediv; trunc = λ x. ok x }

sample_truediv-Sane : (a : Num ℤ) (b : ℤ) → Sane (sample_truediv a b)
sample_truediv-Sane a (pos zero) = plain tt
sample_truediv-Sane (int (pos n)) (pos (suc d)) = returned
sample_truediv-Sane (int (negsuc n)) (pos (suc d)) = returned
sample_truediv-Sane (float x) (pos (suc d)) = returned
sample_truediv-Sane (int (pos n)) (negsuc b) = returned
sample_truediv-Sane (int (negsuc n)) (negsuc b) = returned
sample_truediv-Sane (float x) (negsuc b) = returned

sample-IsFloats : IsFloats sample_floats
sample-IsFloats = record { Sane-truediv = sample_truediv-Sane; Sane-trunc = λ x. returned }

abbrev uart : Text
uart = codes "uart"

-- One node: it is enabled, is labelled and compatible with `uart`, has a register at 8192 and the
-- property `speed`.
abbrev is_uart : {A : Type 0} → A → A → Text → A
is_uart a b t = if text_eq t uart then a else b

abbrev sample_edt : Edt ℕ
sample_edt = record {
  chosen_node = is_uart (some 0) none;
  get_node = is_uart (some 0) none;
  label2node = is_uart (some 0) none;
  compat2nodes = is_uart true false;
  compat2okay = is_uart (some (0 ∷ [])) none;
  okay_nodes = is_uart (0 ∷ []) [];
  nodes = 0 ∷ [];
  name = λ n. uart;
  path = λ n. codes "/uart";
  status = λ n. codes "okay";
  compats = λ n. uart ∷ [];
  labels = λ n. uart ∷ [];
  parent = λ n. none;
  regs = λ n. record { addr = some 8192; size = some 4096 } ∷ [];
  props = λ n t. if text_eq t (codes "speed") then some (Prop.int 9600) else none;
  on_buses = λ n. none;
  gpio_hogs = λ n. false;
  str_val = λ p. codes "9600";
}

sample-IsIndex : IsIndex sample_edt
sample-IsIndex t = elim (Bool-cases (text_eq t uart)) [
  | inl e ↦ inr (0, [], rw e, rw e)
  | inr e ↦ inl (rw e, rw e)
]

functions-IsCallable_example : AllCallable (functions sample_floats none (some sample_edt))
functions-IsCallable_example =
    functions-IsCallable sample_floats none (some sample_edt) sample-IsFloats

arith-SameNumber_example :
    SameNumber sample_floats
      (arith sample_floats "div" (codes "0x20" ∷ codes "3" ∷ []))
      (arith sample_floats "div_hex" (codes "0x20" ∷ codes "3" ∷ []))
arith-SameNumber_example = arith-SameNumber sample_floats divs (codes "0x20" ∷ codes "3" ∷ [])

two_numbers : read_all (items (codes "0x1f,-2" ∷ [])) ≡ ok (pos 31 ∷ negsuc 1 ∷ [])
unfolding items split int_any read_all
two_numbers = refl

inc_dec_undo_example :
    (t : Text) × (inc_dec "inc" (codes "0x1f,-2" ∷ []) ≡ ok t)
    × (inc_dec "dec" (t ∷ []) ≡ ok (join b',' (map str (pos 31 ∷ negsuc 1 ∷ []))))
inc_dec_undo_example = inc_dec_undo (codes "0x1f,-2" ∷ []) (pos 31) (negsuc 1 ∷ []) two_numbers

scale_k : dt_units_to_scale (some (codes "k")) ≡ some 10
unfolding dt_units_to_scale
scale_k = refl

dt_node_reg-IsScaled_example :
    (n : ℕ) × IsScaled 8192 10 n
    × (dt_node_reg
          (some sample_edt)
          "dt_node_reg_addr_int"
          uart
          (some (str (pos 0)))
          (some (codes "k"))
        ≡ answer (str (pos n)))
    × (dt_node_reg
          (some sample_edt)
          "dt_node_reg_addr_hex"
          uart
          (some (str (pos 0)))
          (some (codes "k"))
        ≡ answer (hex (pos n)))
dt_node_reg-IsScaled_example =
    dt_node_reg-IsScaled sample_edt uart (some (codes "k")) 0 10 8192 0
      (record { addr = some 8192; size = some 4096 }) refl refl refl scale_k

dt_nodelabel_int_prop_lem_example :
    ((dt_nodelabel_has_prop (some sample_edt) uart (codes "irq") ≡ answer (codes "y"))
      × ((t : Text) × (dt_nodelabel_int_prop (some sample_edt) uart (codes "irq") ≡ answer t)))
    ⊎ ((dt_nodelabel_has_prop (some sample_edt) uart (codes "irq") ≡ answer (codes "n"))
        × (dt_nodelabel_int_prop (some sample_edt) uart (codes "irq") ≡ raises key_error))
dt_nodelabel_int_prop_lem_example = dt_nodelabel_int_prop_lem sample_edt uart (codes "irq") 0 refl

dt_compat_enabled_num_lem_example :
    (((dt_compat_enabled (some sample_edt) uart ≡ answer (codes "y"))
        × ((n : ℕ) × (dt_compat_enabled_num (some sample_edt) uart ≡ answer (str (pos (suc n))))))
      ⊎ ((dt_compat_enabled (some sample_edt) uart ≡ answer (codes "n"))
          × (dt_compat_enabled_num (some sample_edt) uart ≡ answer (codes "0"))))
    × ((c : Text)
        → dt_compat_enabled_num (some (after_enabled_num sample_edt uart)) c
          ≡ dt_compat_enabled_num (some sample_edt) c)
    × ((c : Text)
        → text_eq c uart ≡ false
        → dt_compat_enabled (some (after_enabled_num sample_edt uart)) c
          ≡ dt_compat_enabled (some sample_edt) c)
    × (dt_compat_enabled (some (after_enabled_num sample_edt uart)) uart ≡ answer (codes "y"))
dt_compat_enabled_num_lem_example = dt_compat_enabled_num_lem sample_edt uart sample-IsIndex

uart_enabled : dt_compat_enabled (some sample_edt) uart ≡ answer (codes "y")
unfolding dt_compat_enabled
uart_enabled = refl

-- Runs.
max_of_hex : arith sample_floats "max_hex" (codes "0x10,-1" ∷ codes "0b11" ∷ []) ≡ ok (codes "0x10")
unfolding arith items split int_any hex
max_of_hex = refl

mod_of_negative : arith sample_floats "mod" (codes "-7" ∷ codes "3" ∷ []) ≡ ok (codes "2")
unfolding arith items split int_any str
mod_of_negative = refl

upper : normalize_upper (codes "nrf52,dk-2") ≡ codes "NRF52_DK_2"
unfolding normalize_upper
upper = refl
