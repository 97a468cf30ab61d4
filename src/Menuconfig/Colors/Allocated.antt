-- ===== src/Menuconfig/Colors/Allocated.antt =====
-- The palette entries that `_alloc_rgb()` redefines (menuconfig.py).
use ve_root.Base.{
  arith, ℕ, ◌+◌, ◌*◌, ◌≤◌, ◌<◌, ◌≡◌, ◌⊎◌, inl, inr, refl, true, ==_iff, Bool-cases, none, some,
  Option-cases, List, [], ◌∷◌, length, leb,
}
use ve_root.Menuconfig.Colors.{
  Rgb, rgb, each, same_rgb, rounded, Palette, lookup, allocate, known_or_new, alloc_rgb,
}

-- The entries have the numbers from 16 to 255, one after the other, and each has been given its
-- colour once, in thousandths.
pub data IsPalette : List (Rgb × ℕ) → List (ℕ × Rgb) → Type 0 where
  no_entry : IsPalette [] []
  entry :
      {entries : List (Rgb × ℕ)} {inits : List (ℕ × Rgb)} (c : Rgb)
      → 16 + length entries < 256
      → IsPalette entries inits
      → IsPalette
          ((c, 16 + length entries) ∷ entries)
          ((16 + length entries, each (λ x. rounded (1000 * x) 255) c) ∷ inits)

same_rgb_refl : (c : Rgb) → same_rgb c c ≡ true
same_rgb_refl c = ground (arith, ==_iff c.r c.r, ==_iff c.g c.g, ==_iff c.b c.b)

rgb_eq : {r r' g g' b b' : ℕ} → r ≡ r' → g ≡ g' → b ≡ b' → rgb r g b ≡ rgb r' g' b'
rgb_eq e f h = cc

same_rgb_sound : (c d : Rgb) → same_rgb c d ≡ true → c ≡ d
same_rgb_sound c d h =
    rgb_eq (ground (arith, ==_iff c.r d.r)) (ground (arith, ==_iff c.g d.g))
      (ground (arith, ==_iff c.b d.b))

-- An entry that is found has one of the numbers.
lookup-bounds :
    {entries : List (Rgb × ℕ)} {inits : List (ℕ × Rgb)} (c : Rgb) (i : ℕ)
    → IsPalette entries inits
    → lookup c entries ≡ some i
    → (16 ≤ i) × (i < 256)
lookup-bounds c i no_entry e = cc
lookup-bounds c i (entry {entries} d room h) e = elim (Bool-cases (same_rgb c d)) [
  | inl same ↦
      let e' : some (16 + length entries) ≡ some i = rw same at e in
      let at : 16 + length entries ≡ i = cc in (omega arith, omega arith)
  | inr other ↦ lookup-bounds c i h (rw other at e)
]

-- What allocating a colour gives: a number and the palette after it.
pub record Allocates (c : Rgb) (p q : Palette) (i : ℕ) : Type 0 where
  pub palette : IsPalette q.rgb2index q.inits
  pub kept : (d : Rgb) (j : ℕ) → lookup d p.rgb2index ≡ some j → lookup d q.rgb2index ≡ some j
  pub number :
      ((i ≡ 0) × (length p.rgb2index ≡ 240)) ⊎ ((16 ≤ i) × (i < 256) × (alloc_rgb c q ≡ (i, q)))

IsPalette-length :
    {entries : List (Rgb × ℕ)} {inits : List (ℕ × Rgb)}
    → IsPalette entries inits
    → length entries ≤ 240
IsPalette-length no_entry = omega arith
IsPalette-length (entry c room h) = omega arith

lookup_head : (c : Rgb) (i : ℕ) (entries : List (Rgb × ℕ)) → lookup c ((c, i) ∷ entries) ≡ some i
lookup_head c i entries = rw (same_rgb_refl c)

lookup_kept :
    (c d : Rgb) (i j : ℕ) (entries : List (Rgb × ℕ))
    → lookup c entries ≡ none
    → lookup d entries ≡ some j
    → lookup d ((c, i) ∷ entries) ≡ some j
lookup_kept c d i j entries gone found = elim (Bool-cases (same_rgb d c)) [
  | inl same ↦
      let e : d ≡ c = same_rgb_sound d c same in
      let found_c : lookup c entries ≡ some j = rw e at found in cc
  | inr other ↦ rw other found
]

-- From a palette whose entries have the numbers from 16 on, in order and below 256, each given its
-- colour once: allocating a colour gives such a palette, in which all colours allocated before
-- keep their numbers; the result is 0, with 240 colours allocated before, or a number from 16 to
-- 255 that allocating the colour again gives back, without a change.
pub alloc_rgb-Allocates :
    (c : Rgb) (p : Palette)
    → IsPalette p.rgb2index p.inits
    → (i : ℕ) × (q : Palette) × (alloc_rgb c p ≡ (i, q)) × Allocates c p q i
unfolding alloc_rgb known_or_new allocate
alloc_rgb-Allocates c p h = elim (Option-cases (lookup c p.rgb2index)) [
  | inr (i, found) ↦
      let (low, high) = lookup-bounds c i h found in
      (
        i,
        p,
        rw found,
        record { palette = h; kept = λ d j e. e; number = inr (low, high, rw found) },
      )
  | inl gone ↦ elim (Bool-cases (leb 256 (16 + length p.rgb2index))) [
    | inl full ↦
        let len : length p.rgb2index ≡ 240 = let le = IsPalette-length h in ground arith in
        (
          0,
          record p { refused = c ∷ p.refused },
          rw (gone, full),
          record { palette = h; kept = λ d j e. e; number = inl (refl, len) },
        )
    | inr room ↦
        let new = 16 + length p.rgb2index in
        let lt : new < 256 = ground arith in
        (
          new,
          record p {
            rgb2index = (c, new) ∷ p.rgb2index;
            inits = (new, each (λ x. rounded (1000 * x) 255) c) ∷ p.inits;
          },
          rw (gone, room),
          record {
            palette = entry c lt h;
            kept = λ d j e. lookup_kept c d new j p.rgb2index gone e;
            number = inr (omega arith, lt, rw (lookup_head c new p.rgb2index));
          },
        )
  ]
]
