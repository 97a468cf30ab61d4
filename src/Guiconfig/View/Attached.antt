-- ===== src/Guiconfig/View/Attached.antt =====
-- The items of the Treeview hang together (guiconfig.py).
use ve_root.Base.{
  ℕ, ◌≡◌, ◌≢◌, ◌∙◌, sym, refl, Bool, true, false, ◌==◌, ==_iff, ==_refl, List, [], ◌∷◌, ◌++◌, ◌⊎◌,
  inl, inr, Every, Every-append, Bool-cases, arith, if◌then◌else◌,
}
use ve_root.Menuconfig.Nodes.{MenuNode, Tree}
use ve_root.Guiconfig.Shown.Ordered.{IsFirst}
use ve_root.Guiconfig.View.{Place, top_level, under, nowhere, Row, detach, move, place_in, place_of}

unfoldable pub is_attached : ℕ → List Row → Bool
is_attached i [] = false
is_attached i (r ∷ rs) = if r.id == i then true else is_attached i rs

abbrev pub Grows : List Row → List Row → Type 0
Grows rs rs' = (i : ℕ) → is_attached i rs ≡ true → is_attached i rs' ≡ true

-- The place is the top level or an attached item.
abbrev pub Hangs : List Row → Place → Type 0
Hangs rs top_level = Unit
Hangs rs (under p) = is_attached p rs ≡ true
Hangs rs nowhere = ⊥

abbrev pub Linked : List Row → Type 0
Linked rs = Every (λ (r : Row). Hangs rs r.place) rs

Hangs-mono : (rs rs' : List Row) (p : Place) → Grows rs rs' → Hangs rs p → Hangs rs' p
Hangs-mono rs rs' top_level g h = tt
Hangs-mono rs rs' (under p) g h = g p h
Hangs-mono rs rs' nowhere g h = h

is_attached-append :
    (red : Bool) (i j : ℕ) (place : Place) (rs : List Row)
    → (is_attached i rs ≡ true) ⊎ (j ≡ i)
    → is_attached i (detach j rs ++ (record { place = place; id = j; red = red } ∷ [])) ≡ true
unfolding is_attached detach
is_attached-append red i j place [] (inl h) = cc
is_attached-append red i j place [] (inr e) = rw (e, ==_refl i) refl
is_attached-append red i j place (r ∷ rs) h = elim (Bool-cases (r.id == j)) [
  | inl e ↦ rw e (
      is_attached-append red i j place rs (elim h [
        | inr e' ↦ inr e'
        | inl h' ↦ elim (Bool-cases (r.id == i)) [
          | inl e' ↦ inr (omega (arith, (==_iff r.id j).0 e, (==_iff r.id i).0 e'))
          | inr e' ↦ inl (rw e' at h')
        ]
      ]))
  | inr e ↦ rw e (elim (Bool-cases (r.id == i)) [
    | inl e' ↦ rw e' refl
    | inr e' ↦ rw e' (
        is_attached-append red i j place rs
          (elim h [ inr e'' ↦ inr e'' | inl h' ↦ inl (rw e' at h') ]))
  ])
]

pub move-Grows :
    (red : Bool) (i : ℕ) (place : Place) (rs : List Row) → Grows rs (move red i place rs)
unfolding move
move-Grows red i place rs j h = is_attached-append red j i place rs (inl h)

pub move-attaches :
    (red : Bool) (i : ℕ) (place : Place) (rs : List Row)
    → is_attached i (move red i place rs) ≡ true
unfolding move
move-attaches red i place rs = is_attached-append red i i place rs (inr refl)

pub Every-detach : (P : Row → Type 0) (i : ℕ) (rs : List Row) → Every P rs → Every P (detach i rs)
unfolding detach
Every-detach P i [] h = tt
Every-detach P i (r ∷ rs) h = elim (Bool-cases (r.id == i)) [
  | inl e ↦ rw e (Every-detach P i rs h.1)
  | inr e ↦ rw e (h.0, Every-detach P i rs h.1)
]

Every-mono :
    (P Q : Row → Type 0) (rs : List Row) → ((r : Row) → P r → Q r) → Every P rs → Every Q rs
Every-mono P Q [] f h = tt
Every-mono P Q (r ∷ rs) f h = (f r h.0, Every-mono P Q rs f h.1)

-- Attaching an item at a place that hangs already keeps all the others, and keeps them linked.
pub move-Linked :
    (red : Bool) (i : ℕ) (place : Place) (rs : List Row)
    → Hangs rs place
    → Linked rs
    → Linked (move red i place rs)
unfolding move
move-Linked red i place rs h l =
    let g = move-Grows red i place rs in
    Every-append (λ (r : Row). Hangs (move red i place rs) r.place) (detach i rs) _
      (Every-detach (λ (r : Row). Hangs (move red i place rs) r.place) i rs
        (Every-mono (λ (r : Row). Hangs rs r.place) _ rs
          (λ r. Hangs-mono rs (move red i place rs) r.place g) l))
      (Hangs-mono rs (move red i place rs) place g h, tt)

-- The places of the nodes that are known: the top of the tree, or an attached item.
abbrev pub Places : ℕ → List Row → ℕ → Type 0
Places top rs j = (j ≡ top) ⊎ (is_attached j rs ≡ true)

pub place_in-Hangs :
    (K : ℕ → Type 0) (top : ℕ) (ps : List MenuNode) (rs : List Row)
    → ((j : ℕ) → K j → Places top rs j)
    → IsFirst K ps
    → Hangs rs (place_in top ps)
unfolding place_in
place_in-Hangs K top [] rs f h = absurd h
place_in-Hangs K top (p ∷ ps) rs f h = elim (Bool-cases (p.id == top)) [
  | inl e ↦ rw e tt
  | inr e ↦ rw e (elim (f p.id h) [ inl e' ↦ absurd (ground (arith, e, e')) | inr h' ↦ h' ])
]

module _ (tree : Tree) (top : ℕ) where
  -- The item hangs where the parent of its node is, `top` being the top level.
  abbrev pub Fits : Row → Type 0
  Fits r = r.place ≡ place_in top (tree.ancestors r.id)

  pub move-Fits :
      (red : Bool) (i : ℕ) (place : Place) (rs : List Row)
      → place ≡ place_in top (tree.ancestors i)
      → Every Fits rs
      → Every Fits (move red i place rs)
  unfolding move
  move-Fits red i place rs e h =
      Every-append Fits (detach i rs) _ (Every-detach Fits i rs h) (e, tt)

  pub place_of-Fits :
      (i : ℕ) (ps : List MenuNode)
      → i ≢ top
      → IsFirst (λ q. q ≡ i) ps
      → place_of ps ≡ place_in top ps
  unfolding place_of place_in
  place_of-Fits i [] other h = absurd h
  place_of-Fits i (p ∷ ps) other h = elim (Bool-cases (p.id == top)) [
    | inl e ↦ absurd (other (sym h ∙ (==_iff p.id top).0 e))
    | inr e ↦ rw e refl
  ]

  -- What some more items keep.
  abbrev pub Built : List Row → List Row → Type 0
  Built rs rs' = Linked rs' × Grows rs rs' × (Every Fits rs → Every Fits rs')

-- All of the nodes are attached.
abbrev pub All : List MenuNode → List Row → Type 0
All ns rs = Every (λ (n : MenuNode). is_attached n.id rs ≡ true) ns

pub place_of-Hangs :
    (i : ℕ) (ps : List MenuNode) (rs : List Row)
    → is_attached i rs ≡ true
    → IsFirst (λ q. q ≡ i) ps
    → Hangs rs (place_of ps)
unfolding place_of
place_of-Hangs i [] rs a h = absurd h
place_of-Hangs i (p ∷ ps) rs a h = rw h a
