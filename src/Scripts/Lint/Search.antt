-- ===== src/Scripts/Lint/Search.antt =====
-- The texts that scripts/kconfig/lint.py searches: lines, and the matches of its regular expressions.
use ve_root.Base.{
  ℕ, Bool, true, false, ◌&&◌, ◌||◌, not, Option, none, some, List, [], ◌∷◌, ◌++◌, ◌==◌, leb,
  if◌then◌else◌, Text, codes,
}
use mathlib.Core.List.{reverse}

-- The ends of lines for `str.splitlines()`.
is_line_end : ℕ → Bool
is_line_end c =
    leb 10 c && leb c 13 || (leb 28 c && leb c 30 || (c == 133 || (c == 8232 || c == 8233)))

-- The line so far stands reversed in `line`; the Boolean says whether a `\r` was the last end.
split_from : Text → Bool → Text → List Text
unfolding is_line_end
split_from [] cr [] = []
split_from (c ∷ line) cr [] = reverse (c ∷ line) ∷ []
split_from line cr (c ∷ cs) =
    let after_end = split_from [] (c == 13) cs in
    let skipped = split_from line false cs in
    let longer = split_from (c ∷ line) false cs in
    if is_line_end c then (if cr && c == 10 then skipped else reverse line ∷ after_end) else longer

-- `str.splitlines()`
unfoldable pub splitlines : Text → List Text
unfolding split_from
splitlines t = split_from [] false t

-- `[A-Z0-9_]`
pub is_name : ℕ → Bool
is_name c = leb b'A' c && leb c b'Z' || (leb b'0' c && leb c b'9' || c == b'_')

abbrev all_of : (ℕ → Bool) → Text → Bool
all_of p [] = true
all_of p (c ∷ t) = p c && all_of p t

-- What follows a prefix.
abbrev pub after_prefix : Text → Text → Option Text
after_prefix [] t = some t
after_prefix (p ∷ ps) [] = none
after_prefix (p ∷ ps) (c ∷ t) = if p == c then after_prefix ps t else none

abbrev drop_while : (ℕ → Bool) → Text → Text
drop_while p [] = []
drop_while p (c ∷ t) = if p c then drop_while p t else c ∷ t

abbrev take_while : (ℕ → Bool) → Text → Text
take_while p [] = []
take_while p (c ∷ t) = if p c then c ∷ take_while p t else []

starts_with : (ℕ → Bool) → Text → Bool
starts_with p [] = false
starts_with p (c ∷ t) = p c

module _ (is_word is_space : ℕ → Bool) where
  -- The words of a text: the longest runs of word characters. The word so far is reversed.
  words_from : Text → Text → List Text
  words_from word [] = reverse word ∷ []
  words_from word (c ∷ cs) =
      let longer = words_from (c ∷ word) cs in
      let rest = words_from [] cs in if is_word c then longer else (reverse word ∷ rest)

  -- A whole match of `CONFIG_[A-Z0-9_]+`, without the prefix.
  config_name : Text → List Text
  unfolding is_name
  config_name word = elim (after_prefix (codes "CONFIG_") word) [
    | none ↦ []
    | some [] ↦ []
    | some (c ∷ t) ↦ if all_of is_name (c ∷ t) then (c ∷ t) ∷ [] else []
  ]

  config_names : List Text → List Text
  unfolding config_name
  config_names [] = []
  config_names (w ∷ ws) = config_name w ++ config_names ws

  -- `re.findall(r"\bCONFIG_[A-Z0-9_]+\b", line)` with the prefixes stripped. A match starts and ends
  -- at the bounds of a word, and has word characters only, so that it is a word.
  unfoldable pub find_config : Text → List Text
  unfolding config_names words_from
  find_config line = config_names (words_from [] line)

  -- `re.match(r"[\s#]*CONFIG_[A-Z0-9_]+=.*", line)`
  unfoldable pub is_assignment : Text → Bool
  unfolding is_name starts_with
  is_assignment line =
      elim (after_prefix (codes "CONFIG_") (drop_while (λ c. is_space c || c == b'#') line)) [
        | none ↦ false
        | some t ↦ starts_with is_name t && starts_with (λ c. c == b'=') (drop_while is_name t)
      ]

  -- The name at the front, behind white space, if it is a whole word.
  name_after : Text → Option Text
  unfolding is_name starts_with
  name_after t =
      if starts_with is_space t
      then (let name = drop_while is_space t in
          if starts_with is_name name && not (starts_with is_word (drop_while is_name name))
          then some (take_while is_name name)
          else none)
      else none

  -- A match of `#\s*define\s+([A-Z0-9_]+)\b` at the front: the name.
  match_define : Text → Option Text
  unfolding name_after
  match_define [] = none
  match_define (c ∷ t) =
      if c == b'#'
      then (elim (after_prefix (codes "define") (drop_while is_space t)) [
        | none ↦ none
        | some u ↦ name_after u
      ])
      else none

  -- `re.findall(r"#\s*define\s+([A-Z0-9_]+)\b", text)`. A match has no `#` but its first character,
  -- so that the next one is searched from the next character on.
  unfoldable pub find_defines : Text → List Text
  unfolding match_define
  find_defines [] = []
  find_defines (c ∷ t) =
      let rest = find_defines t in
      elim (match_define (c ∷ t)) [ none ↦ rest | some name ↦ name ∷ rest ]
