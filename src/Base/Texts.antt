-- ===== src/Base/Texts.antt =====
-- Text as the list of its code points.
use Prim.Native.Nat.{ℕ, zero, suc, ◌-◌, ◌/◌}
use mathlib.Core.Path.{◌≡◌, refl, ap₂}
use mathlib.Core.Bool.{Bool, true, false, ◌&&◌, ◌||◌}
use mathlib.Core.List.{List, [], ◌∷◌, ◌++◌}
use native.Mathlib.Omega.{arith}
use Prim.Native.Char.{code}
use Prim.Native.String.{String}
use ve_root.Base.Lists.{length}
use ve_root.Base.Tests.{ltb, ◌==◌, ==_iff}

-- Text by its code points.
abbrev pub Text : Type 0
Text = List ℕ

-- The code points of a native text.
abbrev pub codes : String → Text
codes String.[] = []
codes (String.◌∷◌ c s) = code c ∷ codes s

-- `TRI_TO_STR` of kconfiglib.
abbrev pub tri_to_str : ℕ → Text
tri_to_str zero = b'n' ∷ []
tri_to_str (suc zero) = b'm' ∷ []
tri_to_str (suc (suc _)) = b'y' ∷ []

abbrev pub text_eq : List ℕ → List ℕ → Bool
text_eq [] [] = true
text_eq [] (_ ∷ _) = false
text_eq (_ ∷ _) [] = false
text_eq (x ∷ xs) (y ∷ ys) = x == y && text_eq xs ys

pub text_eq_sound : (xs ys : List ℕ) → text_eq xs ys ≡ true → xs ≡ ys
text_eq_sound [] [] h = refl
text_eq_sound [] (_ ∷ _) h = cc
text_eq_sound (_ ∷ _) [] h = cc
text_eq_sound (x ∷ xs) (y ∷ ys) h =
    let p : x ≡ y = ground (arith, ==_iff x y) in
    let q : xs ≡ ys = text_eq_sound xs ys (ground (arith, ==_iff x y)) in ap₂ ◌∷◌ p q

pub text_eq_refl : (xs : List ℕ) → text_eq xs xs ≡ true
text_eq_refl [] = refl
text_eq_refl (x ∷ xs) = ground (arith, text_eq_refl xs)

-- A character, repeated.
abbrev pub times : ℕ → ℕ → Text
times zero c = []
times (suc n) c = c ∷ times n c

-- `'{:<n}'.format(t)`
abbrev pub pad_right : ℕ → Text → Text
pad_right n t = t ++ times (n - length t) b' '

-- `'{:^n}'.format(t)`: an odd space is put behind the text.
abbrev pub centre : ℕ → Text → Text
centre n t = let room = n - length t in times (room / 2) b' ' ++ (t ++ times (room - room / 2) b' ')

-- The order of texts by their code points.
unfoldable pub lt_text : Text → Text → Bool
lt_text xs [] = false
lt_text [] (y ∷ ys) = true
lt_text (x ∷ xs) (y ∷ ys) = ltb x y || (x == y && lt_text xs ys)

pub lt_text_trans : (a b c : Text) → lt_text a b ≡ true → lt_text b c ≡ true → lt_text a c ≡ true
unfolding lt_text
lt_text_trans a [] c h k = cc
lt_text_trans a (y ∷ ys) [] h k = cc
lt_text_trans [] (y ∷ ys) (z ∷ zs) h k = refl
lt_text_trans (x ∷ xs) (y ∷ ys) (z ∷ zs) h k = ground (arith, lt_text_trans xs ys zs)

pub lt_text_total : (a b : Text) → text_eq a b ≡ false → lt_text a b ≡ false → lt_text b a ≡ true
unfolding lt_text
lt_text_total [] [] h k = cc
lt_text_total [] (y ∷ ys) h k = cc
lt_text_total (x ∷ xs) [] h k = refl
lt_text_total (x ∷ xs) (y ∷ ys) h k = ground (arith, lt_text_total xs ys)
