-- ===== src/Menuconfig/Navigate/Index.antt =====
-- `list.index()` and `in` on menu nodes, which compare by identity (menuconfig.py).
use mathlib.Core.List.{Sublistᴰ}
use ve_root.Base.{
  none, false, ℕ, zero, suc, ◌<◌, ◌≡◌, ◌≢◌, refl, ap, ◌∙◌, inl, inr, true, some, List, [], ◌∷◌,
  length, get_elem?, ◌==◌, Bool-cases, Option-cases, ==_iff, arith,
}
use ve_root.Menuconfig.Nodes.{MenuNode}
use ve_root.Menuconfig.Navigate.{is_in, index, first_shown}

pub index-lt : (i : ℕ) (ns : List MenuNode) {k : ℕ} → index i ns ≡ some k → k < length ns
unfolding index
index-lt i [] h = cc
index-lt i (n ∷ ns) {k} h = elim (Bool-cases (n.id == i)) [
  | inl e ↦ ground arith
  | inr e ↦ elim (Option-cases (index i ns)) [
    | inl missing ↦ ground arith
    | inr (j, found) ↦ ground (arith, index-lt i ns {k = j} found)
  ]
]

-- The element at the index has the identity that was looked for.
pub index-get :
    (i : ℕ) (ns : List MenuNode) {k : ℕ}
    → index i ns ≡ some k
    → (n : MenuNode) × (get_elem? ns k ≡ some n) × (n.id ≡ i)
unfolding index
index-get i [] h = cc
index-get i (n ∷ ns) {k = zero} h = (n, refl, ground (arith, ==_iff n.id i))
index-get i (n ∷ ns) {k = suc k} h = index-get i ns {k = k} (ground arith)

-- No two nodes of the list have one identity.
abbrev pub Fresh : ℕ → List MenuNode → Type 0
Fresh i [] = Unit
Fresh i (n ∷ ns) = (n.id ≢ i) × Fresh i ns

abbrev pub Distinct : List MenuNode → Type 0
Distinct [] = Unit
Distinct (n ∷ ns) = Fresh n.id ns × Distinct ns

Fresh-get :
    (i : ℕ) (ns : List MenuNode) (k : ℕ) {n : MenuNode}
    → Fresh i ns
    → get_elem? ns k ≡ some n
    → n.id ≢ i
Fresh-get i [] k f h = cc
Fresh-get i (m ∷ ns) zero f h = ground arith
Fresh-get i (m ∷ ns) (suc k) f h = Fresh-get i ns k f.1 h

pub index-get_self :
    (ns : List MenuNode) (k : ℕ) {n : MenuNode}
    → Distinct ns
    → get_elem? ns k ≡ some n
    → index n.id ns ≡ some k
unfolding index
index-get_self [] k d h = cc
index-get_self (m ∷ ns) zero {n} d h = ground (arith, ==_iff m.id n.id)
index-get_self (m ∷ ns) (suc k) {n} d h =
    ground (
      arith,
      ==_iff m.id n.id,
      Fresh-get m.id ns k {n = n} d.0 h,
      index-get_self ns k {n = n} d.1 h,
    )

pub is_in-index : (i : ℕ) (ns : List MenuNode) → is_in i ns ≡ true → (k : ℕ) × (index i ns ≡ some k)
unfolding is_in index
is_in-index i [] h = cc
is_in-index i (n ∷ ns) h = elim (Bool-cases (n.id == i)) [
  | inl e ↦ (zero, rw e)
  | inr e ↦ let (k, found) = is_in-index i ns (ground arith) in (suc k, rw (e, found))
]

-- What is not in the list has no position there.
pub not-is_in : (i : ℕ) (ns : List MenuNode) → is_in i ns ≡ false → index i ns ≡ none
unfolding is_in index
not-is_in i [] h = refl
not-is_in i (n ∷ ns) h = elim (Bool-cases (n.id == i)) [
  | inl e ↦ absurd (ground (arith, e, h))
  | inr e ↦ rw (e, not-is_in i ns (ground arith)) refl
]

pub is_in-get :
    (ns : List MenuNode) (k : ℕ) {n : MenuNode} → get_elem? ns k ≡ some n → is_in n.id ns ≡ true
unfolding is_in
is_in-get [] k h = cc
is_in-get (m ∷ ns) zero {n} h = ground (arith, ==_iff m.id n.id)
is_in-get (m ∷ ns) (suc k) {n} h = ground (arith, is_in-get ns k {n = n} h)

pub is_in-sublist :
    (i : ℕ) {xs ys : List MenuNode} → Sublistᴰ xs ys → is_in i xs ≡ true → is_in i ys ≡ true
unfolding is_in
is_in-sublist i Sublistᴰ.slnil h = h
is_in-sublist i (Sublistᴰ.cons {l₁ = xs} p) h = ground (arith, is_in-sublist i p h)
is_in-sublist i (Sublistᴰ.cons-cons {a = a} {b = b} {l₁ = xs} e p) h =
    ground (arith, is_in-sublist i p, ap (λ (n : MenuNode). n.id) e)

pub first_shown-lt :
    (ns shown : List MenuNode) {k : ℕ} → first_shown ns shown ≡ some k → k < length shown
unfolding first_shown
first_shown-lt [] shown h = cc
first_shown-lt (n ∷ ns) shown {k} h = elim (Option-cases (index n.id shown)) [
  | inl missing ↦ first_shown-lt ns shown {k = k} (rw (missing, first_shown) at h)
  | inr (j, found) ↦ index-lt n.id shown {k = k} (found ∙ (rw (found, first_shown) at h))
]
