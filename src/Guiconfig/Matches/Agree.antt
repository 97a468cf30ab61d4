-- ===== src/Guiconfig/Matches/Agree.antt =====
-- The searches of guiconfig.py and menuconfig.py find the same nodes.
use mathlib.Core.Option
use ve_root.Base.{
  ◌≡◌, refl, ap, ◌∙◌, sym, Bool, true, false, ◌&&◌, ◌||◌, Bool-cases, Option-cases, inl, inr, List,
  [], ◌∷◌, ◌++◌, map, get_elem?, if◌then◌else◌,
}
use ve_root.Menuconfig.Nodes.{MenuNode, Text}
use ve_root.Menuconfig.Session.{World}
use ve_root.Menuconfig.Search.{
  compile_all, name_matches, prompt_matches, sc_matches, mc_matches, keep_matching, find_matches,
}
use ve_root.Guiconfig.Matches.{
  Matches, first_match, sc_loop, mc_loop, add_matches, all_matches, update_jump_to_matches,
}

append-[] : (ns : List MenuNode) → ns ++ [] ≡ ns
append-[] [] = refl
append-[] (n ∷ ns) = ap (n ∷◌) (append-[] ns)

append_one : (xs ys : List MenuNode) (n : MenuNode) → (xs ++ (n ∷ [])) ++ ys ≡ xs ++ (n ∷ ys)
append_one [] ys n = refl
append_one (x ∷ xs) ys n = ap (x ∷◌) (append_one xs ys n)

if_and : (b : Bool) {x y : Bool} → x ≡ y → (if b then x else false) ≡ (b && y)
if_and true e = e
if_and false e = refl

module _ (world : World) where
  sc_loop-matches :
      (rs : List (Text → Bool)) (n : MenuNode) → sc_loop world rs n ≡ sc_matches world rs n
  unfolding sc_loop sc_matches
  sc_loop-matches [] n = refl
  sc_loop-matches (r ∷ rs) n =
      if_and (name_matches world r (world.sc_name n.item) || prompt_matches world r n.prompt)
        (sc_loop-matches rs n)

  mc_loop-matches :
      (rs : List (Text → Bool)) (n : MenuNode) → mc_loop world rs n ≡ mc_matches world rs n
  unfolding mc_loop mc_matches
  mc_loop-matches [] n = refl
  mc_loop-matches (r ∷ rs) n = if_and (prompt_matches world r n.prompt) (mc_loop-matches rs n)

  add_matches-keeps :
      (p q : MenuNode → Bool) (ns found : List MenuNode)
      → ((n : MenuNode) → p n ≡ q n)
      → add_matches world p ns found ≡ found ++ keep_matching world q ns
  unfolding add_matches keep_matching
  add_matches-keeps p q [] found same = sym (append-[] found)
  add_matches-keeps p q (n ∷ ns) found same = elim (Bool-cases (q n)) [
    | inl e ↦
        rw (same n, e)
          (add_matches-keeps p q ns (found ++ (n ∷ [])) same
            ∙ append_one found (keep_matching world q ns) n)
    | inr e ↦ rw (same n, e) (add_matches-keeps p q ns found same)
  ]

  all_matches-agree :
      (rs : List (Text → Bool))
      → all_matches world rs
        ≡ keep_matching world (sc_matches world rs) world.sorted_sc_nodes
          ++ keep_matching world (mc_matches world rs) world.sorted_menu_comment_nodes
  unfolding all_matches
  all_matches-agree rs =
      add_matches-keeps (mc_loop world rs) (mc_matches world rs) world.sorted_menu_comment_nodes
        (add_matches world (sc_loop world rs) world.sorted_sc_nodes []) (mc_loop-matches rs)
      ∙ ap
          (λ found.
            found ++ keep_matching world (mc_matches world rs) world.sorted_menu_comment_nodes)
          (add_matches-keeps (sc_loop world rs) (sc_matches world rs) world.sorted_sc_nodes []
            (sc_loop-matches rs))

  -- Whatever is searched for: the items of the dialog of guiconfig.py are the nodes that the
  -- dialog of menuconfig.py finds, in the same order, and the first of them is selected; there are
  -- none for a bad regular expression.
  pub update_jump_to_matches-find_matches :
      (s : Text) (m : Matches)
      → ((update_jump_to_matches world s m).shown
          ≡ map (λ (n : MenuNode). n.id) (find_matches world s))
        × ((update_jump_to_matches world s m).selection
            ≡ Option.map (λ (n : MenuNode). n.id) (get_elem? (find_matches world s) 0))
  unfolding update_jump_to_matches find_matches first_match
  update_jump_to_matches-find_matches s m =
      elim (Option-cases (compile_all world (world.split (world.lower_text s)))) [
        | inl e ↦ simp (update_jump_to_matches, find_matches, e) (refl, refl)
        | inr (rs, e) ↦
            simp (update_jump_to_matches, find_matches, e, all_matches-agree rs) (refl, first _)
      ]
    where
      first :
          (ns : List MenuNode)
          → first_match ns ≡ Option.map (λ (n : MenuNode). n.id) (get_elem? ns 0)
      first [] = refl
      first (n ∷ ns) = refl
