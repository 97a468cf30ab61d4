-- ===== src/Functions/Lists.antt =====
-- `str.split()` at one character and `str.join()`, as scripts/kconfig/kconfigfunctions.py calls them.
use ve_root.Base.{
  ℕ, ◌≡◌, ◌≢◌, refl, ap, ◌∙◌, sym, false, List, [], ◌∷◌, ◌++◌, ◌==◌, if◌then◌else◌, Text, Every,
  Bool-cases, inl, inr, ==_refl,
}

abbrev onto_first : ℕ → List Text → List Text
onto_first c [] = (c ∷ []) ∷ []
onto_first c (t ∷ ts) = (c ∷ t) ∷ ts

-- `s.split(c)`
unfoldable pub split : ℕ → Text → List Text
split c [] = [] ∷ []
split c (d ∷ s) = let rest = split c s in if d == c then [] ∷ rest else onto_first d rest

-- `c.join(ts)`
unfoldable pub join : ℕ → List Text → Text
join c [] = []
join c (t ∷ []) = t
join c (t ∷ (u ∷ ts)) = t ++ (c ∷ join c (u ∷ ts))

-- The separator does not occur.
abbrev pub Lacks : ℕ → Text → Type 0
Lacks c t = Every (λ d. (d == c) ≡ false) t

onto_first-append :
    (c : ℕ) (ts us : List Text) → ts ≢ [] → onto_first c ts ++ us ≡ onto_first c (ts ++ us)
onto_first-append c [] us h = absurd (h refl)
onto_first-append c (t ∷ ts) us h = refl

split-ne_nil : (c : ℕ) (s : Text) → split c s ≢ []
unfolding split
split-ne_nil c [] e = cc
split-ne_nil c (d ∷ s) e = elim (Bool-cases (d == c)) [
  | inl same ↦ let k = rw same at e in cc
  | inr other ↦ onto_first-ne_nil d (split c s) (rw other at e)
]
  where
    onto_first-ne_nil : (d : ℕ) (ts : List Text) → onto_first d ts ≢ []
    onto_first-ne_nil d [] e = cc
    onto_first-ne_nil d (t ∷ ts) e = cc

-- Splitting at a separator splits both sides.
pub split-append : (c : ℕ) (s t : Text) → split c (s ++ (c ∷ t)) ≡ split c s ++ split c t
unfolding split
split-append c [] t = rw (==_refl c)
split-append c (d ∷ s) t = elim (Bool-cases (d == c)) [
  | inl same ↦ rw (same, split-append c s t)
  | inr other ↦
      rw (other, split-append c s t)
        (sym (onto_first-append d (split c s) (split c t) (split-ne_nil c s)))
]

pub split_free : (c : ℕ) (t : Text) → Lacks c t → split c t ≡ t ∷ []
unfolding split
split_free c [] h = refl
split_free c (d ∷ t) h = rw (h.0, split_free c t h.1)

-- Texts without the separator are split again after they are joined.
pub split-join : (c : ℕ) (ts : List Text) → ts ≢ [] → Every (Lacks c) ts → split c (join c ts) ≡ ts
unfolding join
split-join c [] h k = absurd (h refl)
split-join c (t ∷ []) h k = split_free c t k.0
split-join c (t ∷ (u ∷ ts)) h k =
    split-append c t (join c (u ∷ ts))
    ∙ rw (split_free c t k.0) (ap (t ∷◌) (split-join c (u ∷ ts) (λ e. cc) k.1))
