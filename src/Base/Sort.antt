-- ===== src/Base/Sort.antt =====
-- `sorted()` with a text as key: stable, as the documentation of Python has it.
use mathlib.Core.Path.{◌≡◌, refl, ◌∙◌, sym, subst}
use mathlib.Core.Logic.{◌⊎◌, inl, inr}
use mathlib.Core.Bool.{true, false}
use mathlib.Core.List.{List, [], ◌∷◌, Permᴰ}
use mathlib.Core.List.Permᴰ
use ve_root.Base.Tests.{if◌then◌else◌, Bool-cases}
use ve_root.Base.Lists.{Every}
use ve_root.Base.Texts.{Text, text_eq, text_eq_sound, lt_text, lt_text_trans, lt_text_total}

module _ {ℓ} {A : Type ℓ} (key : A → Text) where
  -- Before the first element with a greater or an equal key.
  pub insert_by : A → List A → List A
  insert_by x [] = x ∷ []
  insert_by x (y ∷ ys) = if lt_text (key y) (key x) then y ∷ insert_by x ys else x ∷ (y ∷ ys)

  unfoldable pub sorted_by : List A → List A
  unfolding insert_by
  sorted_by [] = []
  sorted_by (x ∷ xs) = insert_by x (sorted_by xs)

  insert_by-Perm : (x : A) (ys : List A) → Permᴰ (insert_by x ys) (x ∷ ys)
  unfolding insert_by
  insert_by-Perm x [] = Permᴰ.refl (x ∷ [])
  insert_by-Perm x (y ∷ ys) = elim (Bool-cases (lt_text (key y) (key x))) [
    | inl e ↦ rw e (Permᴰ.trans (Permᴰ.cons refl (insert_by-Perm x ys)) (Permᴰ.swap refl refl))
    | inr e ↦ rw e (Permᴰ.refl (x ∷ (y ∷ ys)))
  ]

  pub sorted_by-Perm : (xs : List A) → Permᴰ (sorted_by xs) xs
  unfolding sorted_by
  sorted_by-Perm [] = Permᴰ.nil
  sorted_by-Perm (x ∷ xs) =
      Permᴰ.trans (insert_by-Perm x (sorted_by xs)) (Permᴰ.cons refl (sorted_by-Perm xs))

  insert_by-Every {κ} :
      (P : A → Type κ) (x : A) (ys : List A) → P x → Every P ys → Every P (insert_by x ys)
  unfolding insert_by
  insert_by-Every P x [] h k = (h, tt)
  insert_by-Every P x (y ∷ ys) h k = elim (Bool-cases (lt_text (key y) (key x))) [
    | inl e ↦ rw e (k.0, insert_by-Every P x ys h k.1)
    | inr e ↦ rw e (h, k)
  ]

  pub sorted_by-Every {κ} : (P : A → Type κ) (xs : List A) → Every P xs → Every P (sorted_by xs)
  unfolding sorted_by
  sorted_by-Every P [] h = tt
  sorted_by-Every P (x ∷ xs) h = insert_by-Every P x (sorted_by xs) h.0 (sorted_by-Every P xs h.1)

-- Each element is related to all that follow.
abbrev pub IsOrdered {ℓ κ} : {A : Type ℓ} → (A → A → Type κ) → List A → Type κ
IsOrdered R [] = Unit
IsOrdered R (x ∷ xs) = Every (R x) xs × IsOrdered R xs

-- By the key, and for equal keys by the relation.
abbrev pub Then {ℓ κ} : {A : Type ℓ} → (A → Text) → (A → A → Type κ) → A → A → Type κ
Then key R x y = (lt_text (key x) (key y) ≡ true) ⊎ ((key x ≡ key y) × R x y)

cases_lt : (a b : Text) → lt_text b a ≡ false → (lt_text a b ≡ true) ⊎ (a ≡ b)
cases_lt a b h = elim (Bool-cases (text_eq b a)) [
  | inl e ↦ inr (sym (text_eq_sound b a e))
  | inr e ↦ inl (lt_text_total b a e h)
]

module _ {ℓ κ} {A : Type ℓ} (key : A → Text) (R : A → A → Type κ) where
  -- Over an element with a smaller or equal key that is related to all.
  lower_all :
      (x y : A) (zs : List A)
      → (lt_text (key x) (key y) ≡ true) ⊎ (key x ≡ key y)
      → Every (R x) zs
      → Every (Then key R y) zs
      → Every (Then key R x) zs
  lower_all x y [] c h k = tt
  lower_all x y (z ∷ zs) c h k = (first c k.0, lower_all x y zs c h.1 k.1)
    where
      first : (lt_text (key x) (key y) ≡ true) ⊎ (key x ≡ key y) → Then key R y z → Then key R x z
      first (inl a) (inl b) = inl (lt_text_trans (key x) (key y) (key z) a b)
      first (inl a) (inr b) = inl (subst (λ k. lt_text (key x) k ≡ true) b.0 a)
      first (inr a) (inl b) = inl (subst (λ k. lt_text k (key z) ≡ true) (sym a) b)
      first (inr a) (inr b) = inr (a ∙ b.0, h.0)

  insert_by-IsOrdered :
      (x : A) (ys : List A)
      → Every (R x) ys
      → IsOrdered (Then key R) ys
      → IsOrdered (Then key R) (insert_by key x ys)
  unfolding insert_by
  insert_by-IsOrdered x [] h k = (tt, tt)
  insert_by-IsOrdered x (y ∷ ys) h k = elim (Bool-cases (lt_text (key y) (key x))) [
    | inl e ↦
        rw e (insert_by-Every key (Then key R y) x ys (inl e) k.0, insert_by-IsOrdered x ys h.1 k.1)
    | inr e ↦
        let c = cases_lt (key x) (key y) e in rw e ((head c h.0, lower_all x y ys c h.1 k.0), k)
  ]
    where
      head : (lt_text (key x) (key y) ≡ true) ⊎ (key x ≡ key y) → R x y → Then key R x y
      head (inl a) r = inl a
      head (inr a) r = inr (a, r)

  -- A list that is ordered already keeps that order among equal keys.
  pub sorted_by-IsOrdered :
      (xs : List A) → IsOrdered R xs → IsOrdered (Then key R) (sorted_by key xs)
  unfolding sorted_by
  sorted_by-IsOrdered [] h = tt
  sorted_by-IsOrdered (x ∷ xs) h =
      insert_by-IsOrdered x (sorted_by key xs) (sorted_by-Every key (R x) xs h.0)
        (sorted_by-IsOrdered xs h.1)
