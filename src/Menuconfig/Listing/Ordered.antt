-- ===== src/Menuconfig/Listing/Ordered.antt =====
-- The order of the searched nodes (menuconfig.py, guiconfig.py).
use mathlib.Core.List.{Permᴰ}
use mathlib.Core.List.Permᴰ
use mathlib.Core.Path.{subst}
use ve_root.Base.{
  ℕ, ◌≡◌, refl, ap, true, List, [], ◌∷◌, ◌++◌, ◌⊎◌, inl, inr, Text, Every, Every-append, lt_text,
}
use ve_root.Base.Sort.{sorted_by, sorted_by-Perm, sorted_by-IsOrdered, IsOrdered, Then}
use ve_root.Menuconfig.Nodes.{Item, choice, MenuNode, Tree}
use ve_root.Menuconfig.Listing.{Listed, nodes_of, prompt_or_empty, name_or_empty, sorted_sc_nodes}

-- Any two elements are related.
abbrev Any : {A : Type 0} → A → A → Type 0
Any x y = Unit

append_assoc : {A : Type 0} (xs ys zs : List A) → (xs ++ ys) ++ zs ≡ xs ++ (ys ++ zs)
append_assoc [] ys zs = refl
append_assoc (x ∷ xs) ys zs = ap (x ∷◌) (append_assoc xs ys zs)

module _ {A : Type 0} where
  Every-Any : (x : A) (ys : List A) → Every (Any x) ys
  Every-Any x [] = tt
  Every-Any x (y ∷ ys) = (tt, Every-Any x ys)

  IsOrdered-Any : (xs : List A) → IsOrdered (Any {A = A}) xs
  IsOrdered-Any [] = tt
  IsOrdered-Any (x ∷ xs) = (Every-Any x xs, IsOrdered-Any xs)

  swap_lists : (xs ys zs : List A) → Permᴰ (xs ++ (ys ++ zs)) (ys ++ (xs ++ zs))
  swap_lists xs ys zs =
      subst (λ l. Permᴰ l (ys ++ (xs ++ zs))) (append_assoc xs ys zs)
        (subst (Permᴰ ((xs ++ ys) ++ zs)) (append_assoc ys xs zs)
          (Permᴰ.append_right zs (Permᴰ.append_comm xs ys)))

IsOrdered-append :
    {A : Type 0} (R : A → A → Type 0) (xs ys : List A)
    → IsOrdered R xs
    → IsOrdered R ys
    → Every (λ x. Every (R x) ys) xs
    → IsOrdered R (xs ++ ys)
IsOrdered-append R [] ys h k g = k
IsOrdered-append R (x ∷ xs) ys h k g =
    (Every-append (R x) xs ys h.0 g.0, IsOrdered-append R xs ys h.1 k g.1)

nodes_of-Perm :
    (nodes : ℕ → List MenuNode) {is js : List ℕ}
    → Permᴰ is js
    → Permᴰ (nodes_of nodes is) (nodes_of nodes js)
unfolding nodes_of
nodes_of-Perm nodes Permᴰ.nil = Permᴰ.nil
nodes_of-Perm nodes (Permᴰ.cons {a = a} {b = b} {l₁ = is} {l₂ = js} e p) =
    subst (λ j. Permᴰ (nodes a ++ nodes_of nodes is) (nodes j ++ nodes_of nodes js)) e
      (Permᴰ.append_left (nodes a) (nodes_of-Perm nodes p))
nodes_of-Perm nodes (Permᴰ.swap {a = a} {b = b} {b' = b'} {l = is} e f) =
    subst
      (λ i.
        Permᴰ (nodes a ++ (nodes b ++ nodes_of nodes is))
          (nodes i ++ (nodes b' ++ nodes_of nodes is)))
      f
      (subst
        (λ i.
          Permᴰ (nodes a ++ (nodes b ++ nodes_of nodes is))
            (nodes b ++ (nodes i ++ nodes_of nodes is)))
        e (swap_lists (nodes a) (nodes b) (nodes_of nodes is)))
nodes_of-Perm nodes (Permᴰ.trans p q) = Permᴰ.trans (nodes_of-Perm nodes p) (nodes_of-Perm nodes q)

module _ (tree : Tree) (listed : Listed) where
  abbrev name_of : ℕ → Text
  name_of c = name_or_empty (listed.choice_name c)

  abbrev choice_name_of : Item → Text
  choice_name_of (choice c) = name_of c
  choice_name_of _ = []

  -- By the names of the symbols.
  abbrev pub ByName : ℕ → ℕ → Type 0
  ByName = Then listed.sym_name Any

  -- By the names of the choices that the nodes are of.
  abbrev pub ByChoice : MenuNode → MenuNode → Type 0
  ByChoice m n =
      (lt_text (choice_name_of m.item) (choice_name_of n.item) ≡ true)
      ⊎ (choice_name_of m.item ≡ choice_name_of n.item)

  -- By the prompt, and for equal prompts by the name of the choice.
  abbrev pub ByPrompt : MenuNode → MenuNode → Type 0
  ByPrompt = Then prompt_or_empty ByChoice

  -- The nodes of a choice are its nodes.
  abbrev pub HasNodes : Type 0
  HasNodes = (c : ℕ) → Every (λ (n : MenuNode). n.item ≡ choice c) (tree.choice_nodes c)

  -- Two nodes whose choices have the names.
  by_choice :
      (c d : ℕ) (m n : MenuNode)
      → m.item ≡ choice c
      → n.item ≡ choice d
      → Then name_of Any c d
      → ByChoice m n
  by_choice c d m n e f (inl h) = rw (e, f) (inl h)
  by_choice c d m n e f (inr h) = rw (e, f) (inr h.0)

  -- A node against those of one choice.
  one_choice :
      (c d : ℕ) (m : MenuNode) (ns : List MenuNode)
      → m.item ≡ choice c
      → Every (λ (n : MenuNode). n.item ≡ choice d) ns
      → Then name_of Any c d
      → Every (ByChoice m) ns
  one_choice c d m [] e h g = tt
  one_choice c d m (n ∷ ns) e h g = (by_choice c d m n e h.0 g, one_choice c d m ns e h.1 g)

  same_choice :
      (c : ℕ) (ns : List MenuNode)
      → Every (λ (n : MenuNode). n.item ≡ choice c) ns
      → IsOrdered ByChoice ns
  same_choice c [] h = tt
  same_choice c (n ∷ ns) h = (one_choice c c n ns h.0 h.1 (inr (refl, tt)), same_choice c ns h.1)

  module _ (h : HasNodes) where
    -- A node against those of the choices that come later.
    later_choices :
        (c : ℕ) (m : MenuNode) (ds : List ℕ)
        → m.item ≡ choice c
        → Every (Then name_of Any c) ds
        → Every (ByChoice m) (nodes_of tree.choice_nodes ds)
    unfolding nodes_of
    later_choices c m [] e g = tt
    later_choices c m (d ∷ ds) e g =
        Every-append (ByChoice m) (tree.choice_nodes d) (nodes_of tree.choice_nodes ds)
          (one_choice c d m (tree.choice_nodes d) e (h d) g.0) (later_choices c m ds e g.1)

    all_later :
        (c : ℕ) (ms : List MenuNode) (ds : List ℕ)
        → Every (λ (m : MenuNode). m.item ≡ choice c) ms
        → Every (Then name_of Any c) ds
        → Every (λ m. Every (ByChoice m) (nodes_of tree.choice_nodes ds)) ms
    all_later c [] ds e g = tt
    all_later c (m ∷ ms) ds e g = (later_choices c m ds e.0 g, all_later c ms ds e.1 g)

    nodes_of-ByChoice :
        (cs : List ℕ)
        → IsOrdered (Then name_of Any) cs
        → IsOrdered ByChoice (nodes_of tree.choice_nodes cs)
    unfolding nodes_of
    nodes_of-ByChoice [] g = tt
    nodes_of-ByChoice (c ∷ cs) g =
        IsOrdered-append ByChoice (tree.choice_nodes c) (nodes_of tree.choice_nodes cs)
          (same_choice c (tree.choice_nodes c) (h c)) (nodes_of-ByChoice cs g.1)
          (all_later c (tree.choice_nodes c) cs (h c) g.0)

  -- The searched nodes of symbols and choices: first the nodes of all defined symbols, the symbols
  -- ordered by name; then the nodes of all choices, ordered by prompt, and those with the same
  -- prompt by the names of their choices, provided that the nodes of a choice are its nodes.
  pub sorted_sc_nodes_lem :
      HasNodes
      → (syms : List ℕ) × (nodes : List MenuNode) × (sorted_sc_nodes tree listed
          ≡ nodes_of tree.sym_nodes syms ++ nodes)
        × Permᴰ syms listed.unique_defined_syms
        × IsOrdered ByName syms
        × Permᴰ nodes (nodes_of tree.choice_nodes listed.unique_choices)
        × IsOrdered ByPrompt nodes
  unfolding sorted_sc_nodes
  sorted_sc_nodes_lem h =
      let cs = sorted_by name_of listed.unique_choices in
      let ns = nodes_of tree.choice_nodes cs in
      (
        sorted_by listed.sym_name listed.unique_defined_syms,
        sorted_by prompt_or_empty ns,
        refl,
        sorted_by-Perm listed.sym_name listed.unique_defined_syms,
        sorted_by-IsOrdered listed.sym_name Any listed.unique_defined_syms
            (IsOrdered-Any listed.unique_defined_syms),
        Permᴰ.trans (sorted_by-Perm prompt_or_empty ns)
            (nodes_of-Perm tree.choice_nodes (sorted_by-Perm name_of listed.unique_choices)),
        sorted_by-IsOrdered prompt_or_empty ByChoice ns (
            nodes_of-ByChoice h cs (
              sorted_by-IsOrdered name_of Any listed.unique_choices
                (IsOrdered-Any listed.unique_choices))),
      )
