-- ===== src/Menuconfig/Values/Sound.antt =====
-- The soundness of the interface when values are set (menuconfig.py).
use ve_root.Base.{
  refl, ◌≡◌, refl, tri_to_str, ℕ, true, ◌&&◌, Option, none, some, List, length, get_elem?, arith,
  Bool-cases, inl, inr, text_eq,
}
use ve_root.Menuconfig.Nodes.{Item, MenuNode, Tree, Text}
use ve_root.Menuconfig.Keys.{Key}
use ve_root.Menuconfig.Navigate.{update_menu}
use ve_root.Menuconfig.Navigate.Frame.{update_menu-Keeps}
use ve_root.Menuconfig.Session.{World, Session, returns}
use ve_root.Menuconfig.Session.Post.{Post, Post-bind, IsSound, Sound, Sound-try_ui, Post-Sound}
use ve_root.Menuconfig.Values.{
  set_val, node_at, set_assignable, selected_node, set_sel_node_tri_val, is_sc, is_in_values,
}

node_at-Sound :
    (o : Option MenuNode) (s : Session) (ks : List Key)
    → IsSound s
    → Post (Sound (length ks) {A = MenuNode}) (node_at o s ks)
unfolding node_at
node_at-Sound none s ks h = tt
node_at-Sound (some n) s ks h = (h, omega arith)

pub selected_node-Sound :
    (s : Session) (ks : List Key)
    → IsSound s
    → Post (Sound (length ks) {A = MenuNode}) (selected_node s ks)
unfolding selected_node
selected_node-Sound s ks h = node_at-Sound (get_elem? s.shown s.sel_node_i) s ks h

module _ (world : World) (tree : Tree) where
  -- The state on which `_set_val()` updates the menu.
  abbrev assigned : Item → Text → Session → Session
  assigned sc v s = record s {
    ui = record s.ui { conf = world.set_value s.conf sc v; conf_changed = true };
  }

  assigned-IsSound : (sc : Item) (v : Text) (s : Session) → IsSound s → IsSound (assigned sc v s)
  assigned-IsSound sc v s h = record {
    in_view = record {
      selected = h.in_view.selected;
      not_above = h.in_view.not_above;
      not_below = h.in_view.not_below;
    };
    saved = λ e. cc;
  }

  pub set_val-Sound :
      (sc : Item) (v : Text) (s : Session) (ks : List Key)
      → IsSound s
      → Post (Sound (length ks) {A = Unit {0}}) (set_val world tree sc v s ks)
  unfolding set_val
  set_val-Sound sc v s ks h = elim (Bool-cases (text_eq v (s.conf.str_value sc))) [
    | inl e ↦ rw e (h, omega arith)
    | inr e ↦ rw e (
        Sound-try_ui (update_menu tree) (assigned sc v s) ks (assigned-IsSound sc v s h)
          (update_menu-Keeps tree (assigned sc v s).ui (assigned-IsSound sc v s h).in_view))
  ]

  set_assignable-Sound :
      (v : ℕ) (sc : Item) (s : Session) (ks : List Key)
      → IsSound s
      → Post (Sound (length ks) {A = Unit {0}}) (set_assignable world tree v sc s ks)
  unfolding set_assignable
  set_assignable-Sound v sc s ks h =
      elim (Bool-cases (is_sc sc && is_in_values v (s.conf.assignable sc))) [
        | inl e ↦ rw e (set_val-Sound sc (tri_to_str v) s ks h)
        | inr e ↦ rw e (h, omega arith)
      ]

  pub set_sel_node_tri_val-Sound :
      (v : ℕ) (s : Session) (ks : List Key)
      → IsSound s
      → Post (Sound (length ks) {A = Unit {0}}) (set_sel_node_tri_val world tree v s ks)
  unfolding set_sel_node_tri_val
  set_sel_node_tri_val-Sound v s ks h =
      Post-bind (Sound (length ks) {A = MenuNode}) (Sound (length ks) {A = Unit {0}}) selected_node
        (λ n. set_assignable world tree v n.item) s ks (selected_node-Sound s ks h)
        (λ n s' ks' g.
          Post-Sound (length ks') (length ks) (set_assignable world tree v n.item s' ks') g.1
            (set_assignable-Sound v n.item s' ks' g.0))

-- The selected entry is read.
pub selected_node_at :
    (s : Session) (ks : List Key) {n : MenuNode}
    → get_elem? s.shown s.sel_node_i ≡ some n
    → selected_node s ks ≡ returns n s ks
unfolding selected_node node_at
selected_node_at s ks h = rw h refl
