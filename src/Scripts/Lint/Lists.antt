-- ===== src/Scripts/Lint/Lists.antt =====
-- Lists, loops and batches of scripts/kconfig/lint.py.
pub mod Batches
use ve_root.Base.{
  ℕ, zero, suc, Bool, true, false, ◌&&◌, ◌||◌, Option, none, some, List, [], ◌∷◌, ◌++◌, length,
  take, drop, if◌then◌else◌, Text,
}
use ve_root.Scripts.{Run, returns, raises, ◌>>=◌, pure}
use ve_root.Scripts.Lint.{Event, Fault}
use ve_root.Scripts.Lint.Search.{after_prefix}

-- The slices of `split_list()` from an index on, on fuel.
batches_from : {A : Type 0} → ℕ → ℕ → List A → List (List A)
batches_from zero size xs = []
batches_from (suc fuel) size [] = []
batches_from (suc fuel) size (x ∷ xs) =
    take size (x ∷ xs) ∷ batches_from fuel size (drop size (x ∷ xs))

-- `split_list()`, for a positive size.
unfoldable pub split_list : {A : Type 0} → List A → ℕ → List (List A)
unfolding batches_from
split_list lst batch_size = batches_from (length lst) batch_size lst

abbrev pub joined : Text → List Text → Text
joined sep [] = []
joined sep (t ∷ []) = t
joined sep (t ∷ (u ∷ ts)) = t ++ (sep ++ joined sep (u ∷ ts))

unfoldable pub any_of : {A : Type 0} → (A → Bool) → List A → Bool
any_of p [] = false
any_of p (x ∷ xs) = p x || any_of p xs

unfoldable pub all_of : {A : Type 0} → (A → Bool) → List A → Bool
all_of p [] = true
all_of p (x ∷ xs) = p x && all_of p xs

abbrev pub filter : {A : Type 0} → (A → Bool) → List A → List A
filter p [] = []
filter p (x ∷ xs) = if p x then x ∷ filter p xs else filter p xs

-- `sub in text`
is_found : Option Text → Bool
is_found none = false
is_found (some rest) = true

unfoldable pub contains : Text → Text → Bool
unfolding is_found
contains sub [] = is_found (after_prefix sub [])
contains sub (c ∷ cs) = is_found (after_prefix sub (c ∷ cs)) || contains sub cs

unfoldable pub for_each :
    {A : Type 0} → (A → Run Event Fault (Unit {0})) → List A → Run Event Fault (Unit {0})
for_each f [] = pure tt
for_each f (x ∷ xs) = f x >>= λ _. for_each f xs

-- The lists that the rounds of a loop give, one after the other.
unfoldable pub gather :
    {A B : Type 0} → (A → Run Event Fault (List B)) → List A → Run Event Fault (List B)
gather f [] = pure []
gather f (x ∷ xs) = f x >>= λ bs. gather f xs >>= λ rest. pure (bs ++ rest)
