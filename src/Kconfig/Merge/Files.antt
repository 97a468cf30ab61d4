-- ===== src/Kconfig/Merge/Files.antt =====
-- The list of Kconfig files that `write_kconfig_filenames()` writes, in scripts/kconfig/kconfig.py.
use ve_root.Base.{
  Option, none, some, lt_text, lt_text_trans, lt_text_total, Every, ◌≡◌, refl, ◌∙◌, Bool, true,
  false, ◌||◌, Bool-cases, inl, inr, List, [], ◌∷◌, map, text_eq, text_eq_sound, ap, Text,
}
use ve_root.Kconfig.{Kconfiglib, Event, Run, writes_list, returns, raises, call, emit, ◌>>=◌}
use ve_root.Kconfig.Merge.{insert_path, sorted_set, write_kconfig_filenames}

-- Each text comes before all that follow.
abbrev pub IsIncreasing : List Text → Type 0
IsIncreasing [] = Unit
IsIncreasing (p ∷ ps) = Every (λ q. lt_text p q ≡ true) ps × IsIncreasing ps

abbrev pub is_member : Text → List Text → Bool
is_member p [] = false
is_member p (q ∷ qs) = text_eq p q || is_member p qs

insert_path-Every :
    (P : Text → Type 0) (p : Text) (qs : List Text) → P p → Every P qs → Every P (insert_path p qs)
unfolding insert_path
insert_path-Every P p [] h k = (h, tt)
insert_path-Every P p (q ∷ qs) h k = elim (Bool-cases (text_eq p q)) [
  | inl e ↦ simp e k
  | inr e ↦ elim (Bool-cases (lt_text p q)) [
    | inl e' ↦ simp (e, e') (h, k)
    | inr e' ↦ simp (e, e') (k.0, insert_path-Every P p qs h k.1)
  ]
]

all_above :
    (p q : Text) (qs : List Text)
    → lt_text p q ≡ true
    → Every (λ r. lt_text q r ≡ true) qs
    → Every (λ r. lt_text p r ≡ true) qs
all_above p q [] h k = tt
all_above p q (r ∷ rs) h k = (lt_text_trans p q r h k.0, all_above p q rs h k.1)

insert_path-IsIncreasing :
    (p : Text) (qs : List Text) → IsIncreasing qs → IsIncreasing (insert_path p qs)
unfolding insert_path
insert_path-IsIncreasing p [] h = (tt, tt)
insert_path-IsIncreasing p (q ∷ qs) h = elim (Bool-cases (text_eq p q)) [
  | inl e ↦ simp e h
  | inr e ↦ elim (Bool-cases (lt_text p q)) [
    | inl e' ↦
        let first : insert_path p (q ∷ qs) ≡ p ∷ (q ∷ qs) = simp (e, e') refl in
        rw first ((e', all_above p q qs e' h.0), h)
    | inr e' ↦
        simp (e, e')
          (
            insert_path-Every (λ r. lt_text q r ≡ true) p qs (lt_text_total p q e e') h.0,
            insert_path-IsIncreasing p qs h.1,
          )
  ]
]

or_same : (a b : Bool) → (a || b) ≡ (a || (a || b))
or_same true b = refl
or_same false b = refl

or_swap : (a b c : Bool) → (a || (b || c)) ≡ (b || (a || c))
or_swap true true c = refl
or_swap true false c = refl
or_swap false b c = refl

is_member-insert_path :
    (r p : Text) (qs : List Text) → is_member r (insert_path p qs) ≡ (text_eq r p || is_member r qs)
unfolding insert_path
is_member-insert_path r p [] = refl
is_member-insert_path r p (q ∷ qs) = elim (Bool-cases (text_eq p q)) [
  | inl e ↦
      let s : p ≡ q = text_eq_sound p q e in simp e (rw s (or_same (text_eq r q) (is_member r qs)))
  | inr e ↦ elim (Bool-cases (lt_text p q)) [
    | inl e' ↦ simp (e, e') refl
    | inr e' ↦
        let rec = is_member-insert_path r p qs in
        simp (e, e', rec) (or_swap (text_eq r q) (text_eq r p) (is_member r qs))
  ]
]

sorted_set-IsIncreasing : (ps : List Text) → IsIncreasing (sorted_set ps)
unfolding sorted_set
sorted_set-IsIncreasing [] = tt
sorted_set-IsIncreasing (p ∷ ps) =
    insert_path-IsIncreasing p (sorted_set ps) (sorted_set-IsIncreasing ps)

is_member-sorted_set : (r : Text) (ps : List Text) → is_member r (sorted_set ps) ≡ is_member r ps
unfolding sorted_set
is_member-sorted_set r [] = refl
is_member-sorted_set r (p ∷ ps) =
    is_member-insert_path r p (sorted_set ps)
    ∙ ap (λ b. text_eq r p || b) (is_member-sorted_set r ps)

-- A run that only writes the list, or raises where the file cannot be opened.
abbrev pub list_run : {Expr : Type 0} → Option (Unit {0}) → Event Expr → Run Expr (Unit {0})
list_run none e = raises []
list_run (some _) e = returns (e ∷ []) tt

opens :
    {Expr : Type 0} (o : Option (Unit {0})) (e : Event Expr)
    → (call o >>= λ _. emit e) ≡ list_run o e
opens none e = refl
opens (some _) e = refl

-- If the path that it is given can be opened, the script writes one list of files to it, and
-- otherwise it raises an exception and writes nothing; the list has the real paths of the parsed
-- Kconfig files and no other, each once, in the order of their code points.
pub write_kconfig_filenames_lem :
    {Expr Kconf : Type 0} (lib : Kconfiglib Expr Kconf) (kconf : Kconf) (path : Text)
    → (files : List Text) × (write_kconfig_filenames lib kconf path
        ≡ list_run (lib.open_list kconf path) (writes_list path files))
      × IsIncreasing files
      × ((r : Text)
          → is_member r files
            ≡ is_member r (map (lib.real_path kconf) (lib.kconfig_filenames kconf)))
unfolding write_kconfig_filenames
write_kconfig_filenames_lem lib kconf path =
    let paths = map (lib.real_path kconf) (lib.kconfig_filenames kconf) in
    (
      sorted_set paths,
      opens (lib.open_list kconf path) _,
      sorted_set-IsIncreasing paths,
      λ r. is_member-sorted_set r paths,
    )
