-- ===== src/Menuconfig/Colors/Cube.antt =====
-- The xterm colours that approximate a colour (menuconfig.py).
use ve_root.Base.{
  arith, ℕ, zero, suc, ◌+◌, ◌-◌, ◌*◌, ◌/◌, ◌%◌, max, ◌≤◌, ◌<◌, ◌≡◌, ◌⊎◌, inl, inr, refl, Bool, true,
  false, Bool-cases, ltb, leb, ℤ, pos, negsuc, if◌then◌else◌,
}
use native.Mathlib.Nat.{mul-le-mul}
use ve_root.Menuconfig.Colors.{
  Rgb, rgb, rounded, to_6cube, from_6cube, rgb_to_6cube, cube_to_rgb, gray_to_rgb, Terminal, clamp,
  rgb_to_gray, dist, square, xterm_color, xterm_nearest, color_from_rgb, Palette,
}

to_6cube-bound : (x : ℕ) → x ≤ 255 → to_6cube x ≤ 5
unfolding to_6cube rounded
to_6cube-bound x h = ground arith

-- How far a component may be from its level.
level_bounds :
    (x : ℕ)
    → x ≤ 255
    → ((x < 48) × (to_6cube x ≡ 0))
      ⊎ ((48 ≤ x)
          × (m : ℕ) × (to_6cube x ≡ suc m)
          × (40 * m + 95 ≤ max 95 (x + 20))
          × (x ≤ 40 * m + 115))
unfolding to_6cube rounded
level_bounds x h = elim (Bool-cases (ltb x 48)) [
  | inl low ↦ inl (ground arith, rw low)
  | inr high ↦ inr (ground arith, to_6cube x - 1, ground arith, ground arith, ground arith)
]

abbrev diff : ℕ → ℕ → ℕ
diff x y = x - y + (y - x)

near_low : (x k : ℕ) → x < 48 → diff x 0 ≤ diff x (from_6cube k)
near_low x zero low = omega arith
near_low x (suc k) low = omega arith

near_high :
    (x m k : ℕ)
    → 48 ≤ x
    → 40 * m + 95 ≤ max 95 (x + 20)
    → x ≤ 40 * m + 115
    → diff x (from_6cube (suc m)) ≤ diff x (from_6cube k)
near_high x m zero high lower upper = omega arith
near_high x m (suc k) high lower upper = omega arith

-- No level of the cube is nearer to a component than its own.
to_6cube-nearest : (x k : ℕ) → x ≤ 255 → diff x (from_6cube (to_6cube x)) ≤ diff x (from_6cube k)
to_6cube-nearest x k h = elim (level_bounds x h) [
  | inl (low, e) ↦ rw e (near_low x k low)
  | inr (high, m, e, lower, upper) ↦ rw e (near_high x m k high lower upper)
]

-- All components are below 256.
pub record IsByte (c : Rgb) : Type 0 where
  pub r_le : c.r ≤ 255
  pub g_le : c.g ≤ 255
  pub b_le : c.b ≤ 255

square_mono : {a b : ℕ} → a ≤ b → square a ≤ square b
square_mono h = mul-le-mul h h

dist-nearest :
    (c k : Rgb) → IsByte c → dist c (cube_to_rgb (rgb_to_6cube c)) ≤ dist c (cube_to_rgb k)
unfolding dist cube_to_rgb rgb_to_6cube
dist-nearest c k h =
    let red = square_mono (to_6cube-nearest c.r k.r h.r_le) in
    let green = square_mono (to_6cube-nearest c.g k.g h.g_le) in
    let blue = square_mono (to_6cube-nearest c.b k.b h.b_le) in omega (arith, red, green, blue)

-- The number of a colour of the cube stands for it.
xterm_color-cube :
    (r g b : ℕ)
    → r ≤ 5
    → g ≤ 5
    → b ≤ 5
    → xterm_color (16 + 36 * r + 6 * g + b) ≡ cube_to_rgb (rgb r g b)
unfolding xterm_color
xterm_color-cube r g b hr hg hb =
    let n = 16 + 36 * r + 6 * g + b in
    let is_cube : ltb n 232 ≡ true = ground arith in
    let red : (n - 16) / 36 % 6 ≡ r = omega arith in
    let green : (n - 16) / 6 % 6 ≡ g = omega arith in
    let blue : (n - 16) % 6 ≡ b = omega arith in rw (is_cube, red, green, blue)

xterm_color-gray : (i : ℕ) → xterm_color (232 + i) ≡ gray_to_rgb i
unfolding xterm_color
xterm_color-gray i =
    let is_gray : ltb (232 + i) 232 ≡ false = ground arith in
    let index : 232 + i - 232 ≡ i = omega arith in rw (is_gray, index)

clamp-bound : (z : ℤ) → clamp z ≤ 23
clamp-bound (pos n) = omega arith
clamp-bound (negsuc n) = omega arith

gray_bound : (terminal : Terminal) (c : Rgb) → rgb_to_gray terminal c ≤ 23
unfolding rgb_to_gray
gray_bound terminal c = clamp-bound (terminal.gray_level c)

-- The number is one of the xterm palette from 16 on, and neither a colour of the cube nor the gray
-- of the same brightness is nearer.
pub record IsApproximation (terminal : Terminal) (c : Rgb) (n : ℕ) : Type 0 where
  pub low : 16 ≤ n
  pub high : n < 256
  pub cube : (k : Rgb) → dist c (xterm_color n) ≤ dist c (cube_to_rgb k)
  pub gray : dist c (xterm_color n) ≤ dist c (gray_to_rgb (rgb_to_gray terminal c))

module _ (terminal : Terminal) (c : Rgb) (h : IsByte c) where
  abbrev c6 : Rgb
  c6 = rgb_to_6cube c

  abbrev cube_number : ℕ
  cube_number = 16 + 36 * c6.r + 6 * c6.g + c6.b

  levels : (c6.r ≤ 5) × (c6.g ≤ 5) × (c6.b ≤ 5)
  unfolding rgb_to_6cube
  levels = (to_6cube-bound c.r h.r_le, to_6cube-bound c.g h.g_le, to_6cube-bound c.b h.b_le)

  cube_color : xterm_color cube_number ≡ cube_to_rgb c6
  cube_color = let (red, green, blue) = levels in xterm_color-cube c6.r c6.g c6.b red green blue

  -- The two cases, by the comparison of the distances.
  IsApproximation-if :
      (is_cube : Bool)
      → ltb (dist c (cube_to_rgb c6)) (dist c (gray_to_rgb (rgb_to_gray terminal c))) ≡ is_cube
      → IsApproximation terminal c (if is_cube then cube_number else 232 + rgb_to_gray terminal c)
  IsApproximation-if true e =
      let (red, green, blue) = levels in
      record {
        low = omega arith;
        high = omega (arith, red, green, blue);
        cube = λ k. rw cube_color (dist-nearest c k h);
        gray = rw cube_color (ground arith);
      }
  IsApproximation-if false e = record {
    low = omega arith;
    high = omega (arith, gray_bound terminal c);
    cube = λ k.
        rw (xterm_color-gray (rgb_to_gray terminal c))
          (let near = dist-nearest c k h in ground arith);
    gray = rw (xterm_color-gray (rgb_to_gray terminal c)) (omega arith);
  }

  xterm_nearest-IsApproximation : IsApproximation terminal c (xterm_nearest terminal c)
  unfolding xterm_nearest
  xterm_nearest-IsApproximation = IsApproximation-if _ refl

-- On a terminal with 256 colours or more that cannot be changed, for an RGB colour with components
-- up to 255: the result is a number from 16 to 255 of the palette of xterm, nothing is allocated,
-- and neither a colour of the 6x6x6 cube nor the gray of the same brightness is nearer to the
-- colour.
pub color_from_rgb-IsApproximation :
    (terminal : Terminal) (c : Rgb) (p : Palette)
    → IsByte c
    → 256 ≤ terminal.colors
    → terminal.can_change_color ≡ false
    → (n : ℕ) × (color_from_rgb terminal c p ≡ (pos n, p)) × IsApproximation terminal c n
unfolding color_from_rgb
color_from_rgb-IsApproximation terminal c p h many fixed =
    let enough : leb 256 terminal.colors ≡ true = ground arith in
    (xterm_nearest terminal c, rw (enough, fixed), xterm_nearest-IsApproximation terminal c h)
