-- ===== src/Functions/Entry.antt =====
-- Rows of the table `functions` of scripts/kconfig/kconfigfunctions.py: how a function of the source
-- is called with a list of arguments.
pub mod Callable
use ve_root.Base.{ℕ, ◌≤◌, Option, none, some, String, List, [], ◌∷◌, ◌++◌, length, Text}
use ve_root.Functions.{Result, raises, ◌>>=◌, arity_error}
use ve_root.Functions.Devicetree.{Answer, says, answer}
use ve_root.Functions.Proper.{IsProper, Sane, IsProper-print}

-- An entry of the table: the name, the least and the greatest number of arguments, and the
-- function on the arguments behind the name.
pub record Entry (Node : Type 0) : Type 0 where
  pub name : String
  pub least : ℕ
  pub greatest : ℕ
  pub run : List Text → Result (Answer Node)

module _ {Node : Type 0} where
  abbrev pub entry : String → ℕ → ℕ → (List Text → Result (Answer Node)) → Entry Node
  entry name least greatest run = record {
    name = name;
    least = least;
    greatest = greatest;
    run = run;
  }

  -- A function of the source with its parameters, some of which may be left out.
  unfoldable pub no_args : Result (Answer Node) → List Text → Result (Answer Node)
  no_args r [] = r
  no_args r _ = raises arity_error

  unfoldable pub one : (Text → Result (Answer Node)) → List Text → Result (Answer Node)
  one f (a ∷ []) = f a
  one f _ = raises arity_error

  unfoldable pub two : (Text → Text → Result (Answer Node)) → List Text → Result (Answer Node)
  two f (a ∷ (b ∷ [])) = f a b
  two f _ = raises arity_error

  unfoldable pub three :
      (Text → Text → Text → Result (Answer Node)) → List Text → Result (Answer Node)
  three f (a ∷ (b ∷ (c ∷ []))) = f a b c
  three f _ = raises arity_error

  unfoldable pub one_to_three :
      (Text → Option Text → Option Text → Result (Answer Node)) → List Text → Result (Answer Node)
  one_to_three f (a ∷ []) = f a none none
  one_to_three f (a ∷ (b ∷ [])) = f a (some b) none
  one_to_three f (a ∷ (b ∷ (c ∷ []))) = f a (some b) (some c)
  one_to_three f _ = raises arity_error

  unfoldable pub two_or_three :
      (Text → Text → Option Text → Result (Answer Node)) → List Text → Result (Answer Node)
  two_or_three f (a ∷ (b ∷ [])) = f a b none
  two_or_three f (a ∷ (b ∷ (c ∷ []))) = f a b (some c)
  two_or_three f _ = raises arity_error

  unfoldable pub three_or_four :
      (Text → Text → Text → Option Text → Result (Answer Node)) → List Text → Result (Answer Node)
  three_or_four f (a ∷ (b ∷ (c ∷ []))) = f a b c none
  three_or_four f (a ∷ (b ∷ (c ∷ (d ∷ [])))) = f a b c (some d)
  three_or_four f _ = raises arity_error

  unfoldable pub four_or_five :
      (Text → Text → Text → Text → Option Text → Result (Answer Node))
      → List Text
      → Result (Answer Node)
  four_or_five f (a ∷ (b ∷ (c ∷ (d ∷ [])))) = f a b c d none
  four_or_five f (a ∷ (b ∷ (c ∷ (d ∷ (e ∷ []))))) = f a b c d (some e)
  four_or_five f _ = raises arity_error

  abbrev pub to_answer : Result Text → Result (Answer Node)
  to_answer r = r >>= λ t. answer t

  -- Any number of arguments.
  unfoldable pub many : (List Text → Result Text) → List Text → Result (Answer Node)
  many f args = to_answer (f args)

  -- With a number of arguments that the table allows, a function returns a text or a value of a
  -- property, or raises an exception that is no failed assertion and no wrong number of arguments.
  abbrev pub IsCallable : Entry Node → Type 0
  IsCallable e =
      (args : List Text) → e.least ≤ length args → length args ≤ e.greatest → IsProper (e.run args)

  infixr 4 ◌&◌
  pub data AllCallable : List (Entry Node) → Type 0 where
    all_done : AllCallable []
    ◌&◌ :
        {e : Entry Node} {es : List (Entry Node)}
        → IsCallable e
        → AllCallable es
        → AllCallable (e ∷ es)

  pub AllCallable-append :
      {xs ys : List (Entry Node)} → AllCallable xs → AllCallable ys → AllCallable (xs ++ ys)
  AllCallable-append all_done k = k
  AllCallable-append (h & hs) k = h & AllCallable-append hs k
