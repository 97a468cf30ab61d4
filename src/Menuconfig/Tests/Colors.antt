-- ===== src/Menuconfig/Tests/Colors.antt =====
-- Instances of the theorems on colours.
use ve_root.Base.{arith, ℕ, ◌-◌, ◌/◌, ◌≡◌, refl, false, [], ltb, ◌==◌, pos, negsuc, if◌then◌else◌}
use ve_root.Menuconfig.Colors.{rgb, Palette, Terminal, alloc_rgb, color_from_rgb, xterm_nearest}
use ve_root.Menuconfig.Colors.Allocated.{no_entry, Allocates, alloc_rgb-Allocates}
use ve_root.Menuconfig.Colors.Cube.{IsApproximation, color_from_rgb-IsApproximation}

abbrev no_colors : Palette
no_colors = record { rgb2index = []; inits = []; refused = [] }

-- A terminal with some number of colours: black, red, and white for the others. The gray level is
-- that of the green component.
abbrev terminal_of : ℕ → Terminal
terminal_of n = record {
  colors = n;
  can_change_color = false;
  color_content =
      λ i. if i == 0 then rgb 0 0 0 else if i == 1 then rgb 1000 0 0 else rgb 1000 1000 1000;
  gray_level = λ c. if ltb c.g 8 then negsuc 0 else pos ((c.g - 8) / 10);
}

alloc_rgb-Allocates_example :
    (i : ℕ) × (q : Palette) × (alloc_rgb (rgb 10 20 30) no_colors ≡ (i, q))
    × Allocates (rgb 10 20 30) no_colors q i
alloc_rgb-Allocates_example = alloc_rgb-Allocates (rgb 10 20 30) no_colors no_entry

color_from_rgb-IsApproximation_example :
    (n : ℕ) × (color_from_rgb (terminal_of 256) (rgb 100 200 30) no_colors ≡ (pos n, no_colors))
    × IsApproximation (terminal_of 256) (rgb 100 200 30) n
color_from_rgb-IsApproximation_example =
    color_from_rgb-IsApproximation (terminal_of 256) (rgb 100 200 30) no_colors
      (record { r_le = omega arith; g_le = omega arith; b_le = omega arith }) (omega arith) refl

-- Runs.
red : color_from_rgb (terminal_of 8) (rgb 200 30 30) no_colors ≡ (pos 1, no_colors)
unfolding color_from_rgb
red = refl

-- An orange of the palette, (5, 2, 0) in the cube.
orange : xterm_nearest (terminal_of 256) (rgb 255 135 0) ≡ 208
unfolding xterm_nearest
orange = refl
