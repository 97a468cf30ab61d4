-- ===== src/Functions/Devicetree.antt =====
-- The devicetree that scripts/kconfig/kconfigfunctions.py reads through edtlib, as a parameter.
use ve_root.Base.{
  ℕ, suc, ◌-◌, ◌/◌, ◌^◌, Bool, Option, none, some, List, [], ◌∷◌, length, get_elem?, leb,
  if◌then◌else◌, ℤ, pos, negsuc, Text, text_eq, codes, ◌||◌, false,
}
use ve_root.Functions.{Result, ok, ◌>>=◌, or_raise, type_error, index_error, value_error}
use ve_root.Functions.Numbers.{str, hex, int_decimal}

-- A property with its type. An entry of a phandle array is nothing, or has the values of cells.
pub data Prop (Node : Type 0) : Type 0 where
  int : ℕ → Prop Node
  array : List ℕ → Prop Node
  boolean : Bool → Prop Node
  string : Text → Prop Node
  phandle : Option Node → Prop Node
  phandle_array : List (Option (Text → Option ℕ)) → Prop Node
  other : Prop Node

pub record Reg : Type 0 where
  pub addr : Option ℕ
  pub size : Option ℕ

-- `EDT`. `get_node` is `none` where it raises `EDTError`; the other searches are `none` for `None`.
-- `compat2okay` is what the dictionary of that name has, and `okay_nodes` is what it gives for an
-- index: it is taken for a `defaultdict(list)`, and the key that an index may add to it is left out.
-- `str_val` is `str()` of the value of a property.
pub record Edt (Node : Type 0) : Type 0 where
  pub chosen_node : Text → Option Node
  pub get_node : Text → Option Node
  pub label2node : Text → Option Node
  pub compat2nodes : Text → Bool
  pub compat2okay : Text → Option (List Node)
  pub okay_nodes : Text → List Node
  pub nodes : List Node
  pub name : Node → Text
  pub path : Node → Text
  pub status : Node → Text
  pub compats : Node → List Text
  pub labels : Node → List Text
  pub parent : Node → Option Node
  pub regs : Node → List Reg
  pub props : Node → Text → Option (Prop Node)
  pub on_buses : Node → Option (List Text)
  pub gpio_hogs : Node → Bool
  pub str_val : Prop Node → Text

-- What a function returns: a text, Python's `None`, or the value of a property as it is.
pub data Answer (Node : Type 0) : Type 0 where
  says : Text → Answer Node
  nothing : Answer Node
  value : Prop Node → Answer Node

-- `_dt_units_to_scale()`: `none` is `None`, which no number can be shifted by.
unfoldable pub dt_units_to_scale : Option Text → Option ℕ
dt_units_to_scale none = some 0
dt_units_to_scale (some []) = some 0
dt_units_to_scale (some (c ∷ cs)) =
    let is : Text → Bool = text_eq (c ∷ cs) in
    if is (codes "k") || is (codes "K")
    then some 10
    else if is (codes "m") || is (codes "M")
    then some 20
    else if is (codes "g") || is (codes "G")
    then some 30
    else if is (codes "kb") || is (codes "Kb")
    then some 13
    else if is (codes "mb") || is (codes "Mb")
    then some 23
    else if is (codes "gb") || is (codes "Gb")
    then some 33
    else none

-- `n >> _dt_units_to_scale(unit)`
unfoldable pub shifted : ℕ → Option Text → Result ℕ
shifted n unit = or_raise type_error (dt_units_to_scale unit) >>= λ k. ok (n / 2 ^ k)

-- An element of a list; a negative index counts from the end.
unfoldable pub element : {A : Type 0} → List A → ℤ → Option A
element xs (pos i) = get_elem? xs i
element xs (negsuc i) = if leb (suc i) (length xs) then get_elem? xs (length xs - suc i) else none

abbrev pub ge_length : {A : Type 0} → ℤ → List A → Bool
ge_length (pos i) xs = leb (length xs) i
ge_length (negsuc i) xs = false

-- `if int(index) >= len(xs): return 0`, and then `f(xs[int(index)])`.
unfoldable pub at_index : {A : Type 0} → List A → Text → (A → Result ℕ) → Result ℕ
unfolding element
at_index xs index f = or_raise value_error (int_decimal index) >>= λ i.
    if ge_length i xs then ok 0 else (or_raise index_error (element xs i) >>= f)

module _ {Node : Type 0} where
  abbrev pub answer : Text → Result (Answer Node)
  answer t = ok (says t)

  -- `"y" if b else "n"`
  abbrev pub yes_no : Bool → Result (Answer Node)
  yes_no b = if b then answer (codes "y") else answer (codes "n")

  abbrev pub print_int : Result ℕ → Result (Answer Node)
  print_int r = r >>= λ n. answer (str (pos n))

  abbrev pub print_hex : Result ℕ → Result (Answer Node)
  print_hex r = r >>= λ n. answer (hex (pos n))

abbrev pub is_member : Text → List Text → Bool
is_member t [] = false
is_member t (u ∷ us) = text_eq t u || is_member t us

-- The default of an argument that is left out.
abbrev pub get_or : Text → Option Text → Text
get_or d none = d
get_or d (some t) = t
