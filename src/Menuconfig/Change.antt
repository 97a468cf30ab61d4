-- ===== src/Menuconfig/Change.antt =====
-- `_change_node()` (menuconfig.py).
pub mod Sound
use ve_root.Base.{
  tri_to_str, ℕ, zero, suc, ◌+◌, ◌%◌, Bool, true, false, not, ◌&&◌, ◌||◌, Option, none, some, List,
  [], ◌∷◌, length, get_elem?, ltb, ◌==◌, if◌then◌else◌,
}
use mathlib.Core.Option
use ve_root.Menuconfig.Nodes.{Item, MenuNode, Tree, Conf, Text, SymType, hex, nonempty}
use ve_root.Menuconfig.Navigate.{leave_menu}
use ve_root.Menuconfig.Values.{
  is_number, is_typed_in, is_y_mode_choice_sym, changeable, check_valid, set_val,
}
use ve_root.Menuconfig.Dialogs.{msg, input_dialog}
use ve_root.Menuconfig.Session.{
  World, Session, Outcome, raises, exhausted, returns, Ui, ◌>>=◌, ◌>>◌, pure, try_ui,
}

-- `s.startswith(("0x", "0X"))`
pub starts_0x : Text → Bool
starts_0x (a ∷ (b ∷ _)) = a == b'0' && (b == b'x' || b == b'X')
starts_0x _ = false

abbrev is_hex : SymType → Bool
is_hex hex = true
is_hex _ = false

-- The index of a number in a list, a `ValueError` if it is missing.
pub index_of : ℕ → List ℕ → Option ℕ
index_of v [] = none
index_of v (w ∷ ws) = if w == v then some 0 else Option.map suc (index_of v ws)

-- The value after the current one, with wrapping.
pub next_value : List ℕ → ℕ → Option ℕ
unfolding index_of
next_value vs v = elim (index_of v vs) [ none ↦ none | some i ↦ get_elem? vs ((i + 1) % length vs) ]

module _ (world : World) (tree : Tree) where
  -- What is typed, in the form that is checked and set.
  pub normalise : SymType → Text → Text
  unfolding starts_0x
  normalise t s =
      if is_number t
      then (let s' = world.strip s in
          if is_hex t && not (starts_0x s') then b'0' ∷ (b'x' ∷ s') else s')
      else s

  checked : Option Bool → Item → Text → (Text → Ui (Unit {0})) → Ui (Unit {0})
  checked none sc s again st ks = raises
  checked (some true) sc s again st ks = set_val world tree sc s st ks
  checked (some false) sc s again st ks = (msg >>= λ _. again s) st ks

  typed_value : (Text → Ui (Unit {0})) → Item → Option Text → Ui (Unit {0})
  unfolding checked
  typed_value again sc none st ks = returns tt st ks
  typed_value again sc (some typed) st ks =
      let s = normalise (tree.orig_type sc) typed in
      checked (check_valid world tree st.conf sc s) sc s again st ks

  -- The loop for int, hex and string symbols, on fuel: each round reads a key.
  type_value : ℕ → Item → Text → Ui (Unit {0})
  unfolding typed_value
  type_value zero sc s st ks = exhausted
  type_value (suc fuel) sc s st ks =
      (input_dialog world (world.value_width sc) s >>= typed_value (type_value fuel sc) sc) st ks

  set_next : Item → Option ℕ → Ui (Unit {0})
  set_next sc none s ks = raises
  set_next sc (some v) s ks = set_val world tree sc (tri_to_str v) s ks

  cycle : Item → List ℕ → Ui (Unit {0})
  unfolding set_next
  cycle sc (v ∷ []) s ks = set_val world tree sc (tri_to_str v) s ks
  cycle sc vs s ks = set_next sc (next_value vs (s.conf.tri_value sc)) s ks

  change_value : MenuNode → Ui (Unit {0})
  unfolding type_value cycle
  change_value n s ks =
      if is_typed_in (tree.orig_type n.item)
      then type_value (suc (length ks)) n.item (s.conf.str_value n.item) s ks
      else cycle n.item (s.conf.assignable n.item) s ks

  -- A choice symbol without children leads back to the parent menu.
  after_change : MenuNode → Ui (Unit {0})
  after_change n s ks =
      if is_y_mode_choice_sym world tree s.conf n.item && not (nonempty n.list)
      then try_ui (leave_menu tree) s ks
      else returns tt s ks

  -- False if the node cannot be changed.
  unfoldable pub change_node : MenuNode → Ui Bool
  unfolding change_value after_change
  change_node n s ks =
      if changeable world tree s.conf n.attrs
      then (do change_value n; after_change n; pure true) s ks
      else returns false s ks
