-- ===== src/Scripts/Harden/Reports.antt =====
-- What scripts/kconfig/hardenconfig.py prints.
use mathlib.Core.List.{append_assoc, append-nil}
use ve_root.Base.{
  ◌≡◌, refl, sym, Bool, ◌||◌, Bool-cases, Option, none, some, Option-cases, inl, inr, List, [], ◌∷◌,
  ◌++◌, ◌==◌, if◌then◌else◌, Text, text_eq, codes,
}
use ve_root.Scripts.{Run, returns, raises, after}
use ve_root.Scripts.Harden.{
  Fault, Select, Node, Kconf, Opt, init, outcome_of, is_fail, header, line, shown_current,
  row_options, all_rows, is_in, is_marked, marks, select_options, node_options,
  compare_with_hardened_conf, is_displayed, display_option, display_each, display_results,
  hardenconfig,
}

module _ {Sym : Type 0} (kconf : Kconf Sym) where
  -- The two texts on a symbol, under a name, unless it has the recommended value or is not visible.
  abbrev pub finding : Text → Text → Sym → List Text
  finding name recommended s =
      if text_eq recommended (kconf.str_value s) || kconf.visibility s == 0
      then []
      else line name (kconf.str_value s) recommended

  abbrev pub row_findings : List Text → List Text
  row_findings (name ∷ (recommended ∷ rest)) = elim (kconf.syms name) [
    | none ↦ []
    | some s ↦ finding name recommended s
  ]
  row_findings _ = []

  abbrev pub findings_of_rows : List (List Text) → List Text
  findings_of_rows [] = []
  findings_of_rows (row ∷ rows) = row_findings row ++ findings_of_rows rows

  -- Whether one of three symbols is in a `select`.
  abbrev pub is_any_in : Sym → Sym → Sym → Select Sym → Bool
  is_any_in e d n select = is_in kconf e select || (is_in kconf d select || is_in kconf n select)

  abbrev pub findings_of_selects : (Select Sym → Bool) → Sym → List (Select Sym) → List Text
  findings_of_selects p item [] = []
  findings_of_selects p item (select ∷ selects) =
      (if p select then finding (kconf.name item) (codes "n") item else [])
      ++ findings_of_selects p item selects

  abbrev pub findings_of_nodes : (Select Sym → Bool) → List (Node Sym) → List Text
  findings_of_nodes p [] = []
  findings_of_nodes p (node ∷ nodes) =
      findings_of_selects p node.item node.selects ++ findings_of_nodes p nodes

  -- The options print these texts, wherever they stand in the list.
  record Displays (opts : List (Opt Sym)) (out : List Text) : Type 0 where
    before :
        (rest : List (Opt Sym))
        → display_each kconf (opts ++ rest) ≡ after out (display_each kconf rest)

  after-nil : {A : Type 0} (r : Run Text Fault A) → after [] r ≡ r
  after-nil (returns out x) = refl
  after-nil (raises out e) = refl

  after-append :
      {A : Type 0} (a b : List Text) (r : Run Text Fault A) → after a (after b r) ≡ after (a ++ b) r
  after-append a b (returns out x) = rw (append_assoc a b out)
  after-append a b (raises out e) = rw (append_assoc a b out)

  Displays-nil : Displays [] []
  Displays-nil = record { before = λ rest. sym (after-nil (display_each kconf rest)) }

  Displays-append :
      {xs ys : List (Opt Sym)} {a b : List Text}
      → Displays xs a
      → Displays ys b
      → Displays (xs ++ ys) (a ++ b)
  Displays-append {xs} {ys} {a} {b} h k = record {
    before = λ rest.
        rw (append_assoc xs ys rest, h.before (ys ++ rest), k.before rest)
          (after-append a b (display_each kconf rest));
  }

  display_option-init :
      (name recommended : Text) (s : Sym)
      → display_option kconf (init name recommended (some (kconf.str_value s)) (some s))
        ≡ returns (finding name recommended s) tt
  unfolding display_option is_displayed init outcome_of is_fail shown_current
  display_option-init name recommended s =
      elim (Bool-cases (text_eq recommended (kconf.str_value s))) [
        | inl same ↦ rw same
        | inr other ↦ elim (Bool-cases (kconf.visibility s == 0)) [
          | inl hidden ↦ rw (other, hidden)
          | inr seen ↦ rw (other, seen)
        ]
      ]

  Displays-init :
      (name recommended : Text) (s : Sym)
      → Displays
          (init name recommended (some (kconf.str_value s)) (some s) ∷ [])
          (finding name recommended s)
  unfolding display_each
  Displays-init name recommended s = record {
    before = λ rest. rw (display_option-init name recommended s);
  }

  -- A name that is not known gives an option that is not printed.
  Displays-unknown : (name recommended : Text) → Displays (init name recommended none none ∷ []) []
  unfolding display_each display_option is_displayed init outcome_of is_fail
  Displays-unknown name recommended = record { before = λ rest. refl }

  Displays-row : (row : List Text) → Displays (row_options kconf row) (row_findings row)
  unfolding row_options
  Displays-row [] = Displays-nil
  Displays-row (name ∷ []) = Displays-nil
  Displays-row (name ∷ (recommended ∷ rest)) = elim (Option-cases (kconf.syms name)) [
    | inl missing ↦ rw (missing, row_findings, row_options) (Displays-unknown name recommended)
    | inr (s, known) ↦ rw (known, row_findings, row_options) (Displays-init name recommended s)
  ]

  Displays-rows : (rows : List (List Text)) → Displays (all_rows kconf rows) (findings_of_rows rows)
  unfolding all_rows
  Displays-rows [] = Displays-nil
  Displays-rows (row ∷ rows) = Displays-append (Displays-row row) (Displays-rows rows)

  Displays-all :
      {opts : List (Opt Sym)} {out : List Text}
      → Displays opts out
      → display_each kconf opts ≡ returns (out ++ ((10 ∷ []) ∷ [])) tt
  unfolding display_each
  Displays-all {opts} h = rw (sym (append-nil opts)) (h.before [])

  module _ {e d n : Sym} (known_e : kconf.syms (codes "EXPERIMENTAL") ≡ some e)
      (known_d : kconf.syms (codes "DEPRECATED") ≡ some d)
      (known_n : kconf.syms (codes "NOT_SECURE") ≡ some n) where
    is_marked_lem :
        (select : Select Sym)
        → is_marked kconf (marks kconf) select ≡ returns [] (is_any_in e d n select)
    unfolding is_marked marks
    is_marked_lem select = elim (Bool-cases (is_in kconf e select)) [
      | inl marked ↦ rw (known_e, marked)
      | inr not_e ↦ elim (Bool-cases (is_in kconf d select)) [
        | inl marked ↦ rw (known_e, not_e, known_d, marked)
        | inr not_d ↦ elim (Bool-cases (is_in kconf n select)) [
          | inl marked ↦ rw (known_e, not_e, known_d, not_d, known_n, marked)
          | inr not_n ↦ rw (known_e, not_e, known_d, not_d, known_n, not_n)
        ]
      ]
    ]

    -- The options of a part of the menu tree, with what they print.
    abbrev Gives : Run Text Fault (List (Opt Sym)) → List Text → Type 0
    Gives r out = (opts : List (Opt Sym)) × (r ≡ returns [] opts) × Displays opts out

    Gives-selects :
        (item : Sym) (selects : List (Select Sym))
        → Gives
            (select_options kconf item selects)
            (findings_of_selects (is_any_in e d n) item selects)
    unfolding select_options
    Gives-selects item [] = ([], refl, Displays-nil)
    Gives-selects item (select ∷ selects) =
        let (opts, given, shown) = Gives-selects item selects in
        elim (Bool-cases (is_any_in e d n select)) [
          | inl marked ↦ (
            init (kconf.name item) (codes "n") (some (kconf.str_value item)) (some item) ∷ opts,
            rw (is_marked_lem select, marked, given),
            rw marked (Displays-append (Displays-init (kconf.name item) (codes "n") item) shown),
          )
          | inr not_e ↦ (opts, rw (is_marked_lem select, not_e, given), rw not_e shown)
        ]

    Gives-nodes :
        (nodes : List (Node Sym))
        → Gives (node_options kconf nodes) (findings_of_nodes (is_any_in e d n) nodes)
    unfolding node_options
    Gives-nodes [] = ([], refl, Displays-nil)
    Gives-nodes (node ∷ nodes) =
        let (opts, given, shown) = Gives-selects node.item node.selects in
        let (more, given_more, shown_more) = Gives-nodes nodes in
        (opts ++ more, rw (given, given_more), Displays-append shown shown_more)

    -- If the configuration can be loaded, the directory is set, the table can be read and the
    -- three marks are known symbols, the script prints its header, then a line for each row of the
    -- table on a known and visible symbol with another value than the recommended one, in the
    -- order of the table, then a line for each `select` with a mark by a visible symbol with
    -- another value than n, in the order of the menu tree, and an empty line; it raises no
    -- exception.
    pub hardenconfig_lem :
        (base : Text) (rows : Text → Option (List (List Text))) (rs : List (List Text))
        → rows base ≡ some rs
        → hardenconfig (some kconf) (some base) rows
          ≡ returns
              (header
                ++ ((findings_of_rows rs ++ findings_of_nodes (is_any_in e d n) kconf.node_iter)
                    ++ ((10 ∷ []) ∷ [])))
              tt
    unfolding hardenconfig compare_with_hardened_conf display_results
    hardenconfig_lem base rows rs found =
        let (opts, given, shown) = Gives-nodes kconf.node_iter in
        rw (found, given, Displays-all (Displays-append (Displays-rows rs) shown))
