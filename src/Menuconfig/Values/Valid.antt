-- ===== src/Menuconfig/Values/Valid.antt =====
-- `_check_valid()` (menuconfig.py) against the values that a symbol may be given.
use ve_root.Base.{
  ℕ, ℤ, ◌≤ℤ◌, leb_ℤ, leb_ℤ→le, le→leb_ℤ, ◌≡◌, refl, ◌↔◌, ◌⊎◌, inl, inr, true, false, Option, some,
  List, [], ◌∷◌, arith, Bool-cases, Option-cases,
}
use ve_root.Menuconfig.Nodes.{Item, symbol, Tree, Conf, Text, SymType, Range}
use ve_root.Menuconfig.Shown.{truth}
use ve_root.Menuconfig.Session.{World}
use ve_root.Menuconfig.Values.{is_number, base_of, check_ranges, check_valid}

module _ (world : World) (tree : Tree) where
  abbrev end_of : Conf → ℕ → ℕ → Option ℤ
  end_of conf base sym = world.parse_int base (conf.str_value (symbol sym))

  -- The first range whose condition holds, if any, has the value within its ends.
  pub data Fits (conf : Conf) (base : ℕ) (v : ℤ) : List Range → Type 0 where
    no_range : Fits conf base v []
    skip :
        {r : Range} {rs : List Range}
        → truth (conf.expr_value r.cond) ≡ false
        → Fits conf base v rs
        → Fits conf base v (r ∷ rs)
    within :
        {r : Range} {rs : List Range} (low high : ℤ)
        → truth (conf.expr_value r.cond) ≡ true
        → end_of conf base r.low ≡ some low
        → end_of conf base r.high ≡ some high
        → low ≤ℤ v
        → v ≤ℤ high
        → Fits conf base v (r ∷ rs)

  check_ranges_sound :
      (conf : Conf) (base : ℕ) (v : ℤ) (rs : List Range)
      → check_ranges world tree conf base v rs ≡ some true
      → Fits conf base v rs
  unfolding check_ranges
  check_ranges_sound conf base v [] h = no_range
  check_ranges_sound conf base v (r ∷ rs) h = elim (Bool-cases (truth (conf.expr_value r.cond))) [
    | inr off ↦ skip off (check_ranges_sound conf base v rs (rw (off, check_ranges) at h))
    | inl on ↦ elim (Option-cases (end_of conf base r.low)) [
      | inl e ↦ absurd (ground arith)
      | inr (low, e) ↦ elim (Bool-cases (leb_ℤ low v)) [
        | inr small ↦ absurd (ground arith)
        | inl p ↦ elim (Option-cases (end_of conf base r.high)) [
          | inl e' ↦ absurd (ground arith)
          | inr (high, e') ↦
              within low high on e e' (leb_ℤ→le low v p) (leb_ℤ→le v high (ground arith))
        ]
      ]
    ]
  ]

  check_ranges_complete :
      (conf : Conf) (base : ℕ) (v : ℤ) {rs : List Range}
      → Fits conf base v rs
      → check_ranges world tree conf base v rs ≡ some true
  unfolding check_ranges
  check_ranges_complete conf base v no_range = refl
  check_ranges_complete conf base v (skip off f) = rw off (check_ranges_complete conf base v f)
  check_ranges_complete conf base v (within low high on e e' p q) =
      rw (on, e, le→leb_ℤ low v p, e', le→leb_ℤ v high q)

  -- What `_check_valid()` accepts.
  abbrev pub IsValue : Conf → Item → Text → Type 0
  IsValue conf sc s =
      (is_number (tree.orig_type sc) ≡ false)
      ⊎ ((v : ℤ) × (world.parse_int (base_of (tree.orig_type sc)) s ≡ some v)
          × Fits conf (base_of (tree.orig_type sc)) v (tree.ranges sc))

  -- A value is accepted exactly if the symbol is no int or hex symbol, or the value is a number
  -- that lies within the first range whose condition holds, or there is no such range.
  pub check_valid_lem :
      (conf : Conf) (sc : Item) (s : Text)
      → (check_valid world tree conf sc s ≡ some true) ↔ IsValue conf sc s
  unfolding check_valid
  check_valid_lem conf sc s = (sound, complete)
    where
      t : SymType
      t = tree.orig_type sc

      sound : check_valid world tree conf sc s ≡ some true → IsValue conf sc s
      sound h = elim (Bool-cases (is_number t)) [
        | inr no_number ↦ inl no_number
        | inl number ↦ elim (Option-cases (world.parse_int (base_of t) s)) [
          | inl e ↦ absurd (ground arith)
          | inr (v, e) ↦
              inr (v, e, check_ranges_sound conf (base_of t) v (tree.ranges sc) (ground arith))
        ]
      ]

      complete : IsValue conf sc s → check_valid world tree conf sc s ≡ some true
      complete (inl no_number) = rw no_number
      complete (inr (v, e, f)) = elim (Bool-cases (is_number t)) [
        | inr no_number ↦ rw no_number
        | inl number ↦ rw (number, e) (check_ranges_complete conf (base_of t) v f)
      ]
