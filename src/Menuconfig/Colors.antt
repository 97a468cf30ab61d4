-- ===== src/Menuconfig/Colors.antt =====
-- Colours (menuconfig.py): the approximations of RGB colours, and the palette entries that are
-- redefined. A component of a colour is a number.
pub mod Allocated
pub mod Cube
pub mod Nearest
use ve_root.Base.{
  ℕ, zero, suc, ◌+◌, ◌-◌, ◌*◌, ◌/◌, ◌%◌, min, max, Bool, true, false, not, ◌&&◌, ◌||◌, Option, none,
  some, List, [], ◌∷◌, length, ltb, leb, ◌==◌, if◌then◌else◌, ℤ, pos, negsuc,
}

pub record Rgb : Type 0 where
  pub r : ℕ
  pub g : ℕ
  pub b : ℕ

abbrev pub rgb : ℕ → ℕ → ℕ → Rgb
rgb r g b = record { r = r; g = g; b = b }

abbrev pub each : (ℕ → ℕ) → Rgb → Rgb
each f c = rgb (f c.r) (f c.g) (f c.b)

abbrev pub same_rgb : Rgb → Rgb → Bool
same_rgb c d = c.r == d.r && (c.g == d.g && c.b == d.b)

-- `int(round(a / b))` for a positive `b`: halves go to the even number.
unfoldable pub rounded : ℕ → ℕ → ℕ
rounded a b =
    let q = a / b in
    let twice = 2 * (a % b) in
    if ltb twice b then q else if ltb b twice then suc q else if q % 2 == 0 then q else suc q

-- `_rgb_to_6cube()`, of a component; `max(1, (x - 55)/40)` is the quotient of `max(40, x - 55)`.
unfoldable pub to_6cube : ℕ → ℕ
unfolding rounded
to_6cube x = if ltb x 48 then 0 else rounded (max 40 (x - 55)) 40

unfoldable pub rgb_to_6cube : Rgb → Rgb
unfolding to_6cube
rgb_to_6cube c = each to_6cube c

-- `_6cube_to_rgb()`
abbrev pub from_6cube : ℕ → ℕ
from_6cube zero = 0
from_6cube (suc x) = 40 * suc x + 55

unfoldable pub cube_to_rgb : Rgb → Rgb
cube_to_rgb c = each from_6cube c

-- `_gray_to_rgb()`
unfoldable pub gray_to_rgb : ℕ → Rgb
gray_to_rgb index = rgb (10 * index + 8) (10 * index + 8) (10 * index + 8)

-- What curses says of the terminal. `gray_level` is `int(round((luma - 8)/10))` of a colour, which
-- is computed with floats.
pub record Terminal : Type 0 where
  pub colors : ℕ
  pub can_change_color : Bool
  pub color_content : ℕ → Rgb
  pub gray_level : Rgb → ℤ

-- `max(0, min(index, 23))`
abbrev pub clamp : ℤ → ℕ
clamp (pos n) = min n 23
clamp (negsuc n) = 0

unfoldable pub rgb_to_gray : Terminal → Rgb → ℕ
rgb_to_gray terminal c = clamp (terminal.gray_level c)

-- The dictionary `rgb2index`, the newest entry first; the calls of `init_color()`; and the colours
-- that could not be allocated, of which a warning is printed.
pub record Palette : Type 0 where
  pub rgb2index : List (Rgb × ℕ)
  pub inits : List (ℕ × Rgb)
  pub refused : List Rgb

abbrev pub lookup : Rgb → List (Rgb × ℕ) → Option ℕ
lookup c [] = none
lookup c ((d, i) ∷ entries) = if same_rgb c d then some i else lookup c entries

allocate : Rgb → Palette → ℕ × Palette
unfolding rounded
allocate c p =
    let color_index = 16 + length p.rgb2index in
    if leb 256 color_index then (0, record p { refused = c ∷ p.refused }) else (
      color_index,
      record p {
        rgb2index = (c, color_index) ∷ p.rgb2index;
        inits = (color_index, each (λ x. rounded (1000 * x) 255) c) ∷ p.inits;
      },
    )

known_or_new : Option ℕ → Rgb → Palette → ℕ × Palette
unfolding allocate
known_or_new (some i) c p = (i, p)
known_or_new none c p = allocate c p

-- `_alloc_rgb()`
unfoldable pub alloc_rgb : Rgb → Palette → ℕ × Palette
unfolding known_or_new
alloc_rgb c p = known_or_new (lookup c p.rgb2index) c p

-- The colour of a number from 16 to 255 in the palette of xterm.
unfoldable pub xterm_color : ℕ → Rgb
unfolding cube_to_rgb gray_to_rgb
xterm_color num =
    if ltb num 232
    then (let n = num - 16 in cube_to_rgb (rgb (n / 36 % 6) (n / 6 % 6) (n % 6)))
    else gray_to_rgb (num - 232)

-- `_color_from_num()`
unfoldable pub color_from_num : Terminal → ℤ → Palette → ℤ × Palette
unfolding alloc_rgb xterm_color
color_from_num terminal (negsuc n) p = (negsuc n, p)
color_from_num terminal (pos num) p =
    if ltb num 16 || (ltb 255 num || (not terminal.can_change_color || ltb terminal.colors 256))
    then (pos num, p)
    else (let (i, q) = alloc_rgb (xterm_color num) p in (pos i, q))

abbrev pub square : ℕ → ℕ
square x = x * x

-- `(x - y)**2`
abbrev pub square_diff : ℕ → ℕ → ℕ
square_diff x y = square (x - y + (y - x))

unfoldable pub dist : Rgb → Rgb → ℕ
dist c d = square_diff c.r d.r + (square_diff c.g d.g + square_diff c.b d.b)

-- The search for the nearest colour, `count` of them from `color` on. `best` is the best one so far
-- with its distance; there is none at first.
unfoldable pub search_from : (ℕ → ℕ) → ℕ → ℕ → Option (ℕ × ℕ) → Option (ℕ × ℕ)
search_from d zero color best = best
search_from d (suc count) color none = search_from d count (suc color) (some (color, d color))
search_from d (suc count) color (some (b, min_dist)) =
    search_from d count (suc color)
      (if ltb (d color) min_dist then some (color, d color) else some (b, min_dist))

-- The distance of a colour from what the terminal shows for a number.
abbrev pub content_dist : Terminal → Rgb → ℕ → ℕ
content_dist terminal c color =
    dist c (each (λ x. rounded (255 * x) 1000) (terminal.color_content color))

found : Option (ℕ × ℕ) → ℤ
found none = negsuc 0
found (some (color, d)) = pos color

unfoldable pub best_color : Terminal → Rgb → ℤ
unfolding search_from rounded dist found
best_color terminal c = found (search_from (content_dist terminal c) terminal.colors 0 none)

-- The choice between the colours of the xterm palette.
unfoldable pub xterm_nearest : Terminal → Rgb → ℕ
unfolding rgb_to_6cube rgb_to_gray cube_to_rgb gray_to_rgb dist
xterm_nearest terminal c =
    let c6 = rgb_to_6cube c in
    let gray = rgb_to_gray terminal c in
    if ltb (dist c (cube_to_rgb c6)) (dist c (gray_to_rgb gray))
    then 16 + 36 * c6.r + 6 * c6.g + c6.b
    else 232 + gray

-- `_color_from_rgb()`
unfoldable pub color_from_rgb : Terminal → Rgb → Palette → ℤ × Palette
unfolding alloc_rgb xterm_nearest best_color
color_from_rgb terminal c p =
    if leb 256 terminal.colors
    then if terminal.can_change_color
      then (let (i, q) = alloc_rgb c p in (pos i, q))
      else (pos (xterm_nearest terminal c), p)
    else (best_color terminal c, p)
