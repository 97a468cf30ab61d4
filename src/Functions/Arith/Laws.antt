-- ===== src/Functions/Arith/Laws.antt =====
-- The arithmetic functions of scripts/kconfig/kconfigfunctions.py on lists of numbers.
use mathlib.Core.List.{append_assoc, append-nil}
use ve_root.Base.{
  ◌≡◌, refl, ap, ◌∙◌, some, String, List, [], ◌∷◌, ◌++◌, map, ℤ, pos, ◌+ℤ◌, ◌-ℤ◌, ◌*ℤ◌, add-sub_one,
  Text, Every,
}
use ve_root.Functions.{Result, ok, raises, ◌>>=◌}
use ve_root.Functions.Numbers.{str, hex, int_any}
use ve_root.Functions.Numbers.RoundTrip.{int_any-str, int_any-hex, str-Lacks_comma}
use ve_root.Functions.Lists.{split, join, split-append, split-join, Lacks}
use ve_root.Functions.Arith.{
  Floats, items, arith, inc_dec, read_all, whole, divide, total, mod_ℤ, max_ℤ, min_ℤ,
}

items-join :
    (t : Text) (ts rest : List Text) → items (join b',' (t ∷ ts) ∷ rest) ≡ items ((t ∷ ts) ++ rest)
unfolding items join
items-join t [] rest = refl
items-join t (u ∷ ts) rest = rw (split-append b',' t (join b',' (u ∷ ts))) (
    append_assoc (split b',' t) (split b',' (join b',' (u ∷ ts))) (items rest)
    ∙ ap (split b',' t ++◌) (items-join u ts rest))

module _ {Float : Type 0} (floats : Floats Float) where
  -- An argument that is a comma-separated list counts as the arguments that it lists, for every
  -- arithmetic function, errors included.
  pub arith-join :
      (name : String) (t : Text) (ts rest : List Text)
      → (arith floats name (join b',' (t ∷ ts) ∷ rest) ≡ arith floats name ((t ∷ ts) ++ rest))
        × (inc_dec name (join b',' (t ∷ ts) ∷ rest) ≡ inc_dec name ((t ∷ ts) ++ rest))
  unfolding arith inc_dec
  arith-join name t ts rest = (rw (items-join t ts rest), rw (items-join t ts rest))

  -- A function that prints in decimal and the one that prints the same number in hexadecimal.
  pub data Twins : String → String → Type 0 where
    adds : Twins "add" "add_hex"
    subs : Twins "sub" "sub_hex"
    muls : Twins "mul" "mul_hex"
    divs : Twins "div" "div_hex"
    mods : Twins "mod" "mod_hex"
    maxs : Twins "max" "max_hex"
    mins : Twins "min" "min_hex"

  -- Both fail in the same way, or their results read as the same integer.
  abbrev pub SameNumber : Result Text → Result Text → Type 0
  SameNumber (ok s) (ok t) = (z : ℤ) × (int_any s ≡ some z) × (int_any t ≡ some z)
  SameNumber (ok s) (raises e) = ⊥
  SameNumber (raises e) (ok t) = ⊥
  SameNumber (raises e) (raises e') = e ≡ e'

  same_number : (r : Result ℤ) → SameNumber (r >>= λ z. ok (str z)) (r >>= λ z. ok (hex z))
  same_number (ok z) = (z, int_any-str z, int_any-hex z)
  same_number (raises e) = refl

  -- The decimal and the hexadecimal variant of an arithmetic function agree on all arguments: both
  -- raise the same exception, or their results are read as the same integer.
  pub arith-SameNumber :
      {name name_hex : String}
      → Twins name name_hex
      → (args : List Text) → SameNumber (arith floats name args) (arith floats name_hex args)
  unfolding arith
  arith-SameNumber adds args = same_number (whole (total ◌+ℤ◌) (items args))
  arith-SameNumber subs args = same_number (whole (total ◌-ℤ◌) (items args))
  arith-SameNumber muls args = same_number (whole (total ◌*ℤ◌) (items args))
  arith-SameNumber divs args = same_number (divide floats (items args))
  arith-SameNumber mods args = same_number (whole mod_ℤ (items args))
  arith-SameNumber maxs args = same_number (whole (total max_ℤ) (items args))
  arith-SameNumber mins args = same_number (whole (total min_ℤ) (items args))

read_all-str : (zs : List ℤ) → read_all (map str zs) ≡ ok zs
unfolding read_all
read_all-str [] = refl
read_all-str (z ∷ zs) = rw (int_any-str z, read_all-str zs)

all_Lacks : (zs : List ℤ) → Every (Lacks b',') (map str zs)
all_Lacks [] = tt
all_Lacks (z ∷ zs) = (str-Lacks_comma z, all_Lacks zs)

items_printed : (z : ℤ) (zs : List ℤ) → items (join b',' (map str (z ∷ zs)) ∷ []) ≡ map str (z ∷ zs)
unfolding items
items_printed z zs =
    rw (split-join b',' (map str (z ∷ zs)) (λ e. cc) (all_Lacks (z ∷ zs)))
      (append-nil (map str (z ∷ zs)))

abbrev incremented : List ℤ → List ℤ
incremented zs = map (λ z. z +ℤ pos 1) zs

back : (zs : List ℤ) → map (λ z. str (z -ℤ pos 1)) (incremented zs) ≡ map str zs
back [] = refl
back (z ∷ zs) = rw (add-sub_one z, back zs)

map-map : (zs : List ℤ) → map (λ z. str (z +ℤ pos 1)) zs ≡ map str (incremented zs)
map-map [] = refl
map-map (z ∷ zs) = rw (map-map zs)

-- If the arguments are read as some integers, then `inc` gives one text, and `dec` of that text
-- gives back those integers, in decimal and with commas.
pub inc_dec_undo :
    (args : List Text) (z : ℤ) (zs : List ℤ)
    → read_all (items args) ≡ ok (z ∷ zs)
    → (t : Text) × (inc_dec "inc" args ≡ ok t)
      × (inc_dec "dec" (t ∷ []) ≡ ok (join b',' (map str (z ∷ zs))))
unfolding inc_dec
inc_dec_undo args z zs h = (
  join b',' (map str (incremented (z ∷ zs))),
  rw (h, map-map (z ∷ zs)),
  rw (
    items_printed (z +ℤ pos 1) (incremented zs),
    read_all-str (incremented (z ∷ zs)),
    back (z ∷ zs),
  ),
)
