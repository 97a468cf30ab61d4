-- ===== src/Functions/Entry/Callable.antt =====
-- The rows of the table of scripts/kconfig/kconfigfunctions.py, one kind of function at a time.
use ve_root.Base.{arith, Option, none, some, String, List, [], ◌∷◌, Text}
use ve_root.Functions.{Result}
use ve_root.Functions.Devicetree.{Answer}
use ve_root.Functions.Proper.{IsProper, Sane, IsProper-print}
use ve_root.Functions.Entry.{
  IsCallable, entry, no_args, one, two, three, one_to_three, two_or_three, three_or_four,
  four_or_five, many,
}

module _ {Node : Type 0} where
  pub no_args-IsCallable :
      {r : Result (Answer Node)} (name : String)
      → IsProper r
      → IsCallable (entry name 0 0 (no_args r))
  unfolding no_args
  no_args-IsCallable name h [] l u = h
  no_args-IsCallable name h (a ∷ rest) l u = absurd (omega arith)

  pub one-IsCallable :
      {f : Text → Result (Answer Node)} (name : String)
      → ((a : Text) → IsProper (f a))
      → IsCallable (entry name 1 1 (one f))
  unfolding one
  one-IsCallable name h [] l u = absurd (omega arith)
  one-IsCallable name h (a ∷ []) l u = h a
  one-IsCallable name h (a ∷ (b ∷ rest)) l u = absurd (omega arith)

  pub two-IsCallable :
      {f : Text → Text → Result (Answer Node)} (name : String)
      → ((a b : Text) → IsProper (f a b))
      → IsCallable (entry name 2 2 (two f))
  unfolding two
  two-IsCallable name h [] l u = absurd (omega arith)
  two-IsCallable name h (a ∷ []) l u = absurd (omega arith)
  two-IsCallable name h (a ∷ (b ∷ [])) l u = h a b
  two-IsCallable name h (a ∷ (b ∷ (c ∷ rest))) l u = absurd (omega arith)

  pub three-IsCallable :
      {f : Text → Text → Text → Result (Answer Node)} (name : String)
      → ((a b c : Text) → IsProper (f a b c))
      → IsCallable (entry name 3 3 (three f))
  unfolding three
  three-IsCallable name h [] l u = absurd (omega arith)
  three-IsCallable name h (a ∷ []) l u = absurd (omega arith)
  three-IsCallable name h (a ∷ (b ∷ [])) l u = absurd (omega arith)
  three-IsCallable name h (a ∷ (b ∷ (c ∷ []))) l u = h a b c
  three-IsCallable name h (a ∷ (b ∷ (c ∷ (d ∷ rest)))) l u = absurd (omega arith)

  pub one_to_three-IsCallable :
      {f : Text → Option Text → Option Text → Result (Answer Node)} (name : String)
      → ((a : Text) (b c : Option Text) → IsProper (f a b c))
      → IsCallable (entry name 1 3 (one_to_three f))
  unfolding one_to_three
  one_to_three-IsCallable name h [] l u = absurd (omega arith)
  one_to_three-IsCallable name h (a ∷ []) l u = h a none none
  one_to_three-IsCallable name h (a ∷ (b ∷ [])) l u = h a (some b) none
  one_to_three-IsCallable name h (a ∷ (b ∷ (c ∷ []))) l u = h a (some b) (some c)
  one_to_three-IsCallable name h (a ∷ (b ∷ (c ∷ (d ∷ rest)))) l u = absurd (omega arith)

  pub two_or_three-IsCallable :
      {f : Text → Text → Option Text → Result (Answer Node)} (name : String)
      → ((a b : Text) (c : Option Text) → IsProper (f a b c))
      → IsCallable (entry name 2 3 (two_or_three f))
  unfolding two_or_three
  two_or_three-IsCallable name h [] l u = absurd (omega arith)
  two_or_three-IsCallable name h (a ∷ []) l u = absurd (omega arith)
  two_or_three-IsCallable name h (a ∷ (b ∷ [])) l u = h a b none
  two_or_three-IsCallable name h (a ∷ (b ∷ (c ∷ []))) l u = h a b (some c)
  two_or_three-IsCallable name h (a ∷ (b ∷ (c ∷ (d ∷ rest)))) l u = absurd (omega arith)

  pub three_or_four-IsCallable :
      {f : Text → Text → Text → Option Text → Result (Answer Node)} (name : String)
      → ((a b c : Text) (d : Option Text) → IsProper (f a b c d))
      → IsCallable (entry name 3 4 (three_or_four f))
  unfolding three_or_four
  three_or_four-IsCallable name h [] l u = absurd (omega arith)
  three_or_four-IsCallable name h (a ∷ []) l u = absurd (omega arith)
  three_or_four-IsCallable name h (a ∷ (b ∷ [])) l u = absurd (omega arith)
  three_or_four-IsCallable name h (a ∷ (b ∷ (c ∷ []))) l u = h a b c none
  three_or_four-IsCallable name h (a ∷ (b ∷ (c ∷ (d ∷ [])))) l u = h a b c (some d)
  three_or_four-IsCallable name h (a ∷ (b ∷ (c ∷ (d ∷ (e ∷ rest))))) l u = absurd (omega arith)

  pub four_or_five-IsCallable :
      {f : Text → Text → Text → Text → Option Text → Result (Answer Node)} (name : String)
      → ((a b c d : Text) (e : Option Text) → IsProper (f a b c d e))
      → IsCallable (entry name 4 5 (four_or_five f))
  unfolding four_or_five
  four_or_five-IsCallable name h [] l u = absurd (omega arith)
  four_or_five-IsCallable name h (a ∷ []) l u = absurd (omega arith)
  four_or_five-IsCallable name h (a ∷ (b ∷ [])) l u = absurd (omega arith)
  four_or_five-IsCallable name h (a ∷ (b ∷ (c ∷ []))) l u = absurd (omega arith)
  four_or_five-IsCallable name h (a ∷ (b ∷ (c ∷ (d ∷ [])))) l u = h a b c d none
  four_or_five-IsCallable name h (a ∷ (b ∷ (c ∷ (d ∷ (e ∷ []))))) l u = h a b c d (some e)
  four_or_five-IsCallable name h (a ∷ (b ∷ (c ∷ (d ∷ (e ∷ (f ∷ rest)))))) l u = absurd (omega arith)

  pub many-IsCallable :
      {f : List Text → Result Text} (name : String)
      → ((args : List Text) → Sane (f args))
      → IsCallable {Node = Node} (entry name 1 255 (many f))
  unfolding many
  many-IsCallable name h args l u = IsProper-print (λ t. t) (h args)
