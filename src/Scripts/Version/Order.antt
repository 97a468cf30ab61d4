-- ===== src/Scripts/Version/Order.antt =====
-- The answers of scripts/version-parse.py on the same versions.
use ve_root.Base.{
  ◌≡◌, ◌⊎◌, inl, inr, sym, ap, ◌∙◌, true, false, not, Bool-cases, some, List, [], ◌∷◌, ℤ, pos,
  negsuc, Text, codes,
}
use ve_root.Scripts.Version.{Versions, End, exits, compare, is_gteq, parse_both, version_parse}

-- Versions are totally ordered.
pub record IsOrder {Version : Type 0} (versions : Versions Version) : Type 0 where
  pub eq_sym : (a b : Version) → versions.eq a b ≡ versions.eq b a
  pub gt_swap : (a b : Version) → versions.gt a b ≡ versions.lt b a
  pub lt_irrefl : (a b : Version) → versions.eq a b ≡ true → versions.lt a b ≡ false
  pub total : (a b : Version) → versions.eq a b ≡ false → versions.lt a b ≡ not (versions.lt b a)
  pub ge_not : (a b : Version) → versions.ge a b ≡ not (versions.lt a b)

-- The script prints this word and exits with this status.
abbrev pub Says : {Version : Type 0} → Versions Version → List Text → Text → ℤ → Type 0
Says versions args word status = version_parse versions args ≡ exits word status

module _ {Version : Type 0} (versions : Versions Version) where
  parse_both_lem :
      (a b : Text) (f : Version → Version → End) {v w : Version}
      → versions.parse a ≡ some v
      → versions.parse b ≡ some w
      → parse_both versions a b f ≡ f v w
  unfolding parse_both
  parse_both_lem a b f found found_w = simp (parse_both, found, found_w)

  -- For texts of versions, which are totally ordered: the script says "eq" both ways, and "y" to
  -- `--gteq`; or "gt", "lt" the other way, and "y"; or "lt", "gt" the other way, and "n"; each
  -- with its exit status.
  pub version_parse_lem :
      (a b : Text) (v w : Version)
      → IsOrder versions
      → versions.parse a ≡ some v
      → versions.parse b ≡ some w
      → (Says versions (a ∷ b ∷ []) (codes "eq") (pos 0)
          × Says versions (b ∷ a ∷ []) (codes "eq") (pos 0)
          × Says versions (codes "--gteq" ∷ a ∷ b ∷ []) (codes "y") (pos 0))
        ⊎ (Says versions (a ∷ b ∷ []) (codes "gt") (pos 1)
            × Says versions (b ∷ a ∷ []) (codes "lt") (negsuc 0)
            × Says versions (codes "--gteq" ∷ a ∷ b ∷ []) (codes "y") (pos 0))
        ⊎ (Says versions (a ∷ b ∷ []) (codes "lt") (negsuc 0)
            × Says versions (b ∷ a ∷ []) (codes "gt") (pos 1)
            × Says versions (codes "--gteq" ∷ a ∷ b ∷ []) (codes "n") (pos 1))
  unfolding version_parse compare is_gteq
  version_parse_lem a b v w order found found_w =
      let one_way = parse_both_lem a b (compare versions) found found_w in
      let other_way = parse_both_lem b a (compare versions) found_w found in
      let ahead = parse_both_lem a b (is_gteq versions) found found_w in
      elim (Bool-cases (versions.eq v w)) [
        | inl same ↦
            let back : versions.eq w v ≡ true = sym (order.eq_sym v w) ∙ same in
            inl (
              one_way ∙ rw (same),
              other_way ∙ rw (back),
              ahead ∙ rw (order.ge_not v w, order.lt_irrefl v w same),
            )
        | inr other ↦
            let back : versions.eq w v ≡ false = sym (order.eq_sym v w) ∙ other in
            elim (Bool-cases (versions.lt v w)) [
              | inl less ↦
                  let less_not : versions.lt w v ≡ false = order.total w v back ∙ ap not less in
                  inr (
                    inr (
                      one_way ∙ rw (other, less),
                      other_way ∙ rw (back, less_not, order.gt_swap w v, less),
                      ahead ∙ rw (order.ge_not v w, less),
                    ))
              | inr not_less ↦
                  let more : versions.lt w v ≡ true = order.total w v back ∙ ap not not_less in
                  inr (
                    inl (
                      one_way ∙ rw (other, not_less, order.gt_swap v w, more),
                      other_way ∙ rw (back, more),
                      ahead ∙ rw (order.ge_not v w, not_less),
                    ))
            ]
      ]
