-- ===== src/Menuconfig/Change/Sound.antt =====
-- The soundness of the interface across `_change_node()` (menuconfig.py).
use ve_root.Base.{
  tri_to_str, ℕ, zero, suc, ◌≤◌, ◌<◌, Bool, true, false, not, ◌&&◌, Option, none, some, List, [],
  ◌∷◌, length, arith, Bool-cases, inl, inr,
}
use ve_root.Menuconfig.Nodes.{Item, MenuNode, Tree, Text, nonempty}
use ve_root.Menuconfig.Keys.{Key}
use ve_root.Menuconfig.Navigate.{leave_menu}
use ve_root.Menuconfig.Navigate.Frame.{leave_menu-Keeps}
use ve_root.Menuconfig.Session.{World, Session, Ui, ◌>>=◌, pure}
use ve_root.Menuconfig.Session.Post.{
  Post, Post-bind, IsSound, Sound, Reads, Post-Sound, Sound-try_ui,
}
use ve_root.Menuconfig.Dialogs.{msg, input_dialog}
use ve_root.Menuconfig.Dialogs.Sound.{msg-Reads, input_dialog-Reads}
use ve_root.Menuconfig.Values.{is_typed_in, is_y_mode_choice_sym, changeable, check_valid, set_val}
use ve_root.Menuconfig.Values.Sound.{set_val-Sound}
use ve_root.Menuconfig.Change.{
  normalise, checked, typed_value, type_value, set_next, cycle, next_value, change_value,
  after_change, change_node,
}

module _ (world : World) (tree : Tree) where
  checked-Sound :
      (o : Option Bool) (sc : Item) (t : Text) (again : Text → Ui (Unit {0})) (n : ℕ) (s : Session)
      (ks : List Key)
      → IsSound s
      → length ks ≤ n
      → ((s' : Session) (ks' : List Key)
          → IsSound s'
          → length ks' ≤ length ks
          → Post (Sound n {A = Unit {0}}) (again t s' ks'))
      → Post (Sound n {A = Unit {0}}) (checked world tree o sc t again s ks)
  unfolding checked
  checked-Sound none sc t again n s ks v le rec = tt
  checked-Sound (some true) sc t again n s ks v le rec =
      Post-Sound (length ks) n (set_val world tree sc t s ks) le
        (set_val-Sound world tree sc t s ks v)
  checked-Sound (some false) sc t again n s ks v le rec =
      Post-bind (Reads (length ks) {A = Option ℕ}) (Sound n {A = Unit {0}}) msg (λ _. again t) s ks
        (msg-Reads s ks v) (λ _ s' ks' h. rec s' ks' h.0 (omega arith))

  answered-Sound :
      (fuel : ℕ) (sc : Item) (n : ℕ) (a : Option Text) (s : Session) (ks : List Key)
      → IsSound s
      → length ks ≤ n
      → ((t : Text) (s' : Session) (ks' : List Key)
          → IsSound s'
          → length ks' ≤ length ks
          → Post (Sound n {A = Unit {0}}) (type_value world tree fuel sc t s' ks'))
      → Post
          (Sound n {A = Unit {0}})
          (typed_value world tree (type_value world tree fuel sc) sc a s ks)
  unfolding typed_value
  answered-Sound fuel sc n none s ks v le rec = (v, le)
  answered-Sound fuel sc n (some typed) s ks v le rec =
      let t = normalise world tree (tree.orig_type sc) typed in
      checked-Sound (check_valid world tree s.conf sc t) sc t (type_value world tree fuel sc) n s ks
        v le (rec t)

  type_value-Sound :
      (fuel : ℕ) (sc : Item) (t : Text) (n : ℕ) (s : Session) (ks : List Key)
      → IsSound s
      → length ks < fuel
      → length ks ≤ n
      → Post (Sound n {A = Unit {0}}) (type_value world tree fuel sc t s ks)
  unfolding type_value
  type_value-Sound zero sc t n s ks v enough le = absurd (omega arith)
  type_value-Sound (suc fuel) sc t n s ks v enough le =
      Post-bind (Reads (length ks) {A = Option Text}) (Sound n {A = Unit {0}})
        (input_dialog world (world.value_width sc) t)
        (typed_value world tree (type_value world tree fuel sc) sc) s ks
        (input_dialog-Reads world (world.value_width sc) t s ks v)
        (λ a s' ks' h. answered-Sound fuel sc n a s' ks' h.0 (omega arith) (λ t' s'' ks'' v'' le''.
          type_value-Sound fuel sc t' n s'' ks'' v'' (omega arith) (omega arith)))

  set_next-Sound :
      (sc : Item) (o : Option ℕ) (s : Session) (ks : List Key)
      → IsSound s
      → Post (Sound (length ks) {A = Unit {0}}) (set_next world tree sc o s ks)
  unfolding set_next
  set_next-Sound sc none s ks v = tt
  set_next-Sound sc (some w) s ks v = set_val-Sound world tree sc (tri_to_str w) s ks v

  cycle-Sound :
      (sc : Item) (vs : List ℕ) (s : Session) (ks : List Key)
      → IsSound s
      → Post (Sound (length ks) {A = Unit {0}}) (cycle world tree sc vs s ks)
  unfolding cycle
  cycle-Sound sc (w ∷ []) s ks v = set_val-Sound world tree sc (tri_to_str w) s ks v
  cycle-Sound sc vs s ks v = set_next-Sound sc (next_value vs (s.conf.tri_value sc)) s ks v

  change_value-Sound :
      (m : MenuNode) (s : Session) (ks : List Key)
      → IsSound s
      → Post (Sound (length ks) {A = Unit {0}}) (change_value world tree m s ks)
  unfolding change_value
  change_value-Sound m s ks v = elim (Bool-cases (is_typed_in (tree.orig_type m.item))) [
    | inl e ↦ rw e (
        type_value-Sound (suc (length ks)) m.item (s.conf.str_value m.item) (length ks) s ks v
          (omega arith) (omega arith))
    | inr e ↦ rw e (cycle-Sound m.item (s.conf.assignable m.item) s ks v)
  ]

  after_change-Sound :
      (m : MenuNode) (s : Session) (ks : List Key)
      → IsSound s
      → Post (Sound (length ks) {A = Unit {0}}) (after_change world tree m s ks)
  unfolding after_change
  after_change-Sound m s ks v =
      elim (Bool-cases (is_y_mode_choice_sym world tree s.conf m.item && not (nonempty m.list))) [
        | inl e ↦
            rw e (Sound-try_ui (leave_menu tree) s ks v (leave_menu-Keeps tree s.ui v.in_view))
        | inr e ↦ rw e (v, omega arith)
      ]

  -- Changing a node, with all its dialogs, leaves a sound interface and reads no more keys than
  -- there are; its loop never runs out of fuel.
  pub change_node-Sound :
      (m : MenuNode) (s : Session) (ks : List Key)
      → IsSound s
      → Post (Sound (length ks) {A = Bool}) (change_node world tree m s ks)
  unfolding change_node
  change_node-Sound m s ks v = elim (Bool-cases (changeable world tree s.conf m.attrs)) [
    | inl e ↦ rw e (
        Post-bind (Sound (length ks) {A = Unit {0}}) (Sound (length ks) {A = Bool})
          (change_value world tree m) (λ _. after_change world tree m >>= λ _. pure true) s ks
          (change_value-Sound m s ks v)
          (λ _ s' ks' h.
            Post-bind (Sound (length ks') {A = Unit {0}}) (Sound (length ks) {A = Bool})
              (after_change world tree m) (λ _. pure true) s' ks' (after_change-Sound m s' ks' h.0)
              (λ _ s'' ks'' g. (g.0, omega arith))))
    | inr e ↦ rw e (v, omega arith)
  ]
