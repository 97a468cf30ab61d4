-- ===== src/Menuconfig/Colors/Nearest.antt =====
-- The search for the nearest colour of a terminal (menuconfig.py).
use ve_root.Base.{
  arith, ℕ, zero, suc, ◌+◌, ◌≤◌, ◌<◌, ◌≡◌, ◌⊎◌, inl, inr, refl, sym, false, Bool-cases, Option,
  none, some, ltb, leb, pos,
}
use ve_root.Menuconfig.Colors.{
  Rgb, Terminal, search_from, found, best_color, content_dist, color_from_rgb, Palette,
}

-- The first of the numbers below `n` at which `d` is least.
pub record IsNearest (d : ℕ → ℕ) (n b : ℕ) : Type 0 where
  pub below : b < n
  pub least : (i : ℕ) → i < n → d b ≤ d i
  pub first : (i : ℕ) → i < b → d b < d i

last_or_below : (i n : ℕ) → i < suc n → (i < n) ⊎ (i ≡ n)
last_or_below i n h = elim (Bool-cases (ltb i n)) [
  | inl e ↦ inl (ground arith)
  | inr e ↦ inr (ground arith)
]

module _ (d : ℕ → ℕ) where
  IsNearest-new : (n b : ℕ) → IsNearest d n b → d n < d b → IsNearest d (suc n) n
  IsNearest-new n b h less = record {
    below = omega arith;
    least = λ i lt. elim (last_or_below i n lt) [
      | inl k ↦ omega (arith, h.least i k)
      | inr e ↦ rw e (omega arith)
    ];
    first = λ i lt. omega (arith, h.least i lt);
  }

  IsNearest-old : (n b : ℕ) → IsNearest d n b → d b ≤ d n → IsNearest d (suc n) b
  IsNearest-old n b h le = record {
    below = omega (arith, h.below);
    least = λ i lt. elim (last_or_below i n lt) [ inl k ↦ h.least i k | inr e ↦ rw e le ];
    first = h.first;
  }

  abbrev Finds : Option (ℕ × ℕ) → ℕ → Type 0
  Finds o n = (b : ℕ) × (o ≡ some (b, d b)) × IsNearest d n b

  search :
      (count n m b : ℕ)
      → count + n ≡ m
      → IsNearest d n b
      → Finds (search_from d count n (some (b, d b))) m
  unfolding search_from
  search zero n m b total h = let e : n ≡ m = omega arith in (b, refl, rw (sym e) h)
  search (suc count) n m b total h = elim (Bool-cases (ltb (d n) (d b))) [
    | inl e ↦ rw e (search count (suc n) m n (omega arith) (IsNearest-new n b h (ground arith)))
    | inr e ↦ rw e (search count (suc n) m b (omega arith) (IsNearest-old n b h (ground arith)))
  ]

  search_all : (n : ℕ) → 0 < n → Finds (search_from d n 0 none) n
  unfolding search_from
  search_all zero h = absurd (omega arith)
  search_all (suc n) h = search n 1 (suc n) 0 (omega arith) (record {
    below = omega arith;
    least = λ i lt. let e : i ≡ 0 = omega arith in rw e (omega arith);
    first = λ i lt. absurd (omega arith);
  })

-- On a terminal with colours, but fewer than 256: the colour for an RGB colour is one of the
-- terminal, no other one is nearer, and it is the first of the nearest ones; nothing is allocated.
pub color_from_rgb-IsNearest :
    (terminal : Terminal) (c : Rgb) (p : Palette)
    → 0 < terminal.colors
    → terminal.colors < 256
    → (b : ℕ) × (color_from_rgb terminal c p ≡ (pos b, p))
      × IsNearest (content_dist terminal c) terminal.colors b
unfolding color_from_rgb best_color found
color_from_rgb-IsNearest terminal c p some_color few =
    let (b, e, h) = search_all (content_dist terminal c) terminal.colors some_color in
    let small : leb 256 terminal.colors ≡ false = ground arith in (b, rw (small, e), h)
