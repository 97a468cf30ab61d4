-- ===== src/Menuconfig/Edit/Word.antt =====
-- The search of Ctrl-W (`_edit_text()` in menuconfig.py) against the texts that its regular
-- expression stands for.
use ve_root.Base.{
  ℕ, suc, zero, ◌≤◌, ◌<◌, ◌≡◌, refl, inl, inr, Bool, true, false, List, [], ◌∷◌, ◌++◌, length, drop,
  arith, Bool-cases,
}
use ve_root.Menuconfig.Edit.{all_space, word_then_space, matches_word, word_start}

-- Every character is of the class.
abbrev pub AllOf : (ℕ → Bool) → List ℕ → Type 0
AllOf p [] = Unit
AllOf p (x ∷ xs) = (p x ≡ true) × AllOf p xs

all_space_sound : (p : ℕ → Bool) (xs : List ℕ) → all_space p xs ≡ true → AllOf p xs
unfolding all_space
all_space_sound p [] h = tt
all_space_sound p (x ∷ xs) h = (ground arith, all_space_sound p xs (ground arith))

all_space_complete : (p : ℕ → Bool) (xs : List ℕ) → AllOf p xs → all_space p xs ≡ true
unfolding all_space
all_space_complete p [] h = refl
all_space_complete p (x ∷ xs) h = ground (arith, all_space_complete p xs)

module _ (is_word is_space : ℕ → Bool) where
  -- The texts that `(?:\w*|\W)\s*` matches whole.
  pub data WordText : List ℕ → Type 0 where
    word : (w sp : List ℕ) → AllOf is_word w → AllOf is_space sp → WordText (w ++ sp)
    single : (x : ℕ) (sp : List ℕ) → is_word x ≡ false → AllOf is_space sp → WordText (x ∷ sp)

  data Split : List ℕ → Type 0 where
    split : (w sp : List ℕ) → AllOf is_word w → AllOf is_space sp → Split (w ++ sp)

  Split-cons : (x : ℕ) {xs : List ℕ} → is_word x ≡ true → Split xs → Split (x ∷ xs)
  Split-cons x h (split w sp hw hs) = split (x ∷ w) sp (h, hw) hs

  word_then_space_sound : (xs : List ℕ) → word_then_space is_word is_space xs ≡ true → Split xs
  unfolding word_then_space
  word_then_space_sound [] h = split [] [] tt tt
  word_then_space_sound (x ∷ xs) h = elim (Bool-cases (all_space is_space (x ∷ xs))) [
    | inl e ↦ split [] (x ∷ xs) tt (all_space_sound is_space (x ∷ xs) e)
    | inr e ↦ Split-cons x (ground arith) (word_then_space_sound xs (ground arith))
  ]

  word_then_space_complete :
      (w sp : List ℕ)
      → AllOf is_word w
      → AllOf is_space sp
      → word_then_space is_word is_space (w ++ sp) ≡ true
  unfolding word_then_space
  word_then_space_complete [] [] hw hs = refl
  word_then_space_complete [] (x ∷ xs) hw hs = ground (arith, all_space_complete is_space (x ∷ xs))
  word_then_space_complete (x ∷ w) sp hw hs = ground (arith, word_then_space_complete w sp)

  WordText-of_Split : {xs : List ℕ} → Split xs → WordText xs
  WordText-of_Split (split w sp hw hs) = word w sp hw hs

  matches_word_sound : (xs : List ℕ) → matches_word is_word is_space xs ≡ true → WordText xs
  unfolding matches_word
  matches_word_sound [] h = word [] [] tt tt
  matches_word_sound (x ∷ xs) h = elim (Bool-cases (word_then_space is_word is_space (x ∷ xs))) [
    | inl e ↦ WordText-of_Split (word_then_space_sound (x ∷ xs) e)
    | inr e ↦ single x xs (ground arith) (all_space_sound is_space xs (ground arith))
  ]

  matches_word_of_true :
      (xs : List ℕ)
      → word_then_space is_word is_space xs ≡ true
      → matches_word is_word is_space xs ≡ true
  unfolding matches_word
  matches_word_of_true [] h = refl
  matches_word_of_true (x ∷ xs) h = ground arith

  matches_word_complete : {xs : List ℕ} → WordText xs → matches_word is_word is_space xs ≡ true
  unfolding matches_word
  matches_word_complete (word w sp hw hs) =
      matches_word_of_true (w ++ sp) (word_then_space_complete w sp hw hs)
  matches_word_complete (single x sp hx hs) = ground (arith, all_space_complete is_space sp)

  -- The place that Ctrl-W deletes from is within the text; what stands from there on is a word, or
  -- one other character, or nothing, and then spaces; and no earlier place has that property.
  pub record IsWordStart (xs : List ℕ) (n : ℕ) : Type 0 where
    pub within : n ≤ length xs
    pub found : WordText (drop n xs)
    pub first : (m : ℕ) → m < n → ¬ WordText (drop m xs)

  IsWordStart-cons :
      (x : ℕ) (xs : List ℕ) (n : ℕ)
      → ¬ WordText (x ∷ xs)
      → IsWordStart xs n
      → IsWordStart (x ∷ xs) (suc n)
  IsWordStart-cons x xs n no_match h = record {
    within = omega arith;
    found = h.found;
    first = elim [ zero ↦ λ _. no_match | suc m ↦ λ lt. h.first m (omega arith) ];
  }

  pub word_start-IsWordStart : (xs : List ℕ) → IsWordStart xs (word_start is_word is_space xs)
  unfolding word_start matches_word
  word_start-IsWordStart [] = record {
    within = omega arith;
    found = word [] [] tt tt;
    first = λ m h. elim h [ ];
  }
  word_start-IsWordStart (x ∷ xs) = elim (Bool-cases (matches_word is_word is_space (x ∷ xs))) [
    | inl e ↦ rw e (record {
      within = omega arith;
      found = matches_word_sound (x ∷ xs) e;
      first = λ m h. elim h [ ];
    })
    | inr e ↦ rw e (
        IsWordStart-cons x xs _ (λ w. ground (arith, matches_word_complete w))
          (word_start-IsWordStart xs))
  ]

  -- With a character before the cursor something is deleted.
  pub word_start-lt : (x : ℕ) (xs : List ℕ) → word_start is_word is_space (x ∷ xs) < length (x ∷ xs)
  unfolding word_start matches_word word_then_space all_space
  word_start-lt x [] = ground arith
  word_start-lt x (y ∷ xs) = ground (arith, word_start-lt y xs)
