-- ===== src/Functions/Strings/Names.antt =====
-- What `normalize_upper()` gives (scripts/kconfig/kconfigfunctions.py).
use ve_root.Base.{
  ℕ, ◌≡◌, refl, ap₂, true, ◌&&◌, ◌||◌, [], ◌∷◌, map, length, leb, ◌==◌, Text, Every, arith,
}
use ve_root.Functions.Strings.{upper_name, normalize_upper}

-- A capital letter, a digit or `_`.
abbrev pub IsUpperName : ℕ → Type 0
IsUpperName c = (leb b'A' c && leb c b'Z' || (leb b'0' c && leb c b'9' || c == b'_')) ≡ true

upper_name-IsUpperName : (c : ℕ) → IsUpperName (upper_name c)
unfolding upper_name
upper_name-IsUpperName c = ground arith

upper_name_self : (c : ℕ) → IsUpperName c → upper_name c ≡ c
unfolding upper_name
upper_name_self c h = ground arith

all-IsUpperName : (s : Text) → Every IsUpperName (map upper_name s)
all-IsUpperName [] = tt
all-IsUpperName (c ∷ s) = (upper_name-IsUpperName c, all-IsUpperName s)

map_self : (s : Text) → Every IsUpperName s → map upper_name s ≡ s
map_self [] h = refl
map_self (c ∷ s) h = ap₂ ◌∷◌ (upper_name_self c h.0) (map_self s h.1)

length-map : (s : Text) → length (map upper_name s) ≡ length s
length-map [] = refl
length-map (c ∷ s) = omega (arith, length-map s)

-- A normalized text has capital letters, digits and `_` only, is as long as the original, and is
-- its own normalized text. A text of such characters is left alone.
pub normalize_upper-IsUpperName :
    (s : Text)
    → Every IsUpperName (normalize_upper s)
      × (length (normalize_upper s) ≡ length s)
      × (normalize_upper (normalize_upper s) ≡ normalize_upper s)
      × (Every IsUpperName s → normalize_upper s ≡ s)
unfolding normalize_upper
normalize_upper-IsUpperName s =
    (all-IsUpperName s, length-map s, map_self (map upper_name s) (all-IsUpperName s), map_self s)
