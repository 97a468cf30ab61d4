-- ===== src/Scripts/Version.antt =====
-- scripts/version-parse.py, over the versions of the library packaging.
pub mod Order
use ve_root.Base.{
  ℕ, Bool, true, false, Option, none, some, List, [], ◌∷◌, if◌then◌else◌, ℤ, pos, negsuc, Text,
  text_eq, codes,
}

-- `version.parse()`, which raises on a text that is no version, and the comparisons.
pub record Versions (Version : Type 0) : Type 0 where
  pub parse : Text → Option Version
  pub eq : Version → Version → Bool
  pub lt : Version → Version → Bool
  pub gt : Version → Version → Bool
  pub ge : Version → Version → Bool

-- How the script ends: the line that it prints with what it gives to `sys.exit()`; at its last line,
-- with nothing printed; or with the exception of `parse()`.
pub data End : Type 0 where
  exits : Text → ℤ → End
  ends : End
  invalid_version : End

module _ {Version : Type 0} (versions : Versions Version) where
  compare : Version → Version → End
  compare a b =
      if versions.eq a b
      then exits (codes "eq") (pos 0)
      else if versions.lt a b
      then exits (codes "lt") (negsuc 0)
      else if versions.gt a b
      then exits (codes "gt") (pos 1)
      else ends

  is_gteq : Version → Version → End
  is_gteq a b = if versions.ge a b then exits (codes "y") (pos 0) else exits (codes "n") (pos 1)

  parse_both : Text → Text → (Version → Version → End) → End
  parse_both a b f = elim (versions.parse a) [
    | none ↦ invalid_version
    | some v ↦ elim (versions.parse b) [ none ↦ invalid_version | some w ↦ f v w ]
  ]

  -- The script on its arguments.
  unfoldable pub version_parse : List Text → End
  unfolding compare is_gteq parse_both
  version_parse (a ∷ (b ∷ [])) = parse_both a b compare
  version_parse (flag ∷ (a ∷ (b ∷ []))) =
      parse_both a b λ v w. if text_eq flag (codes "--gteq") then is_gteq v w else ends
  version_parse _ = ends
