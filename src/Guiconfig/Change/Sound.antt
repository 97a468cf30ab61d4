-- ===== src/Guiconfig/Change/Sound.antt =====
-- Changes of values in guiconfig.py keep the tree up to date.
use ve_root.Base.{
  ℕ, tri_to_str, true, ◌&&◌, Option, none, some, List, [], ◌∷◌, Option-cases, inl, inr, text_eq,
}
use ve_root.Menuconfig.Nodes.{Text, Item, MenuNode, Tree}
use ve_root.Menuconfig.Values.{changeable, is_typed_in, is_in_values, is_sc}
use ve_root.Menuconfig.Change.{next_value}
use ve_root.Menuconfig.Session.{World}
use ve_root.Guiconfig.Window.{Window, update_tree}
use ve_root.Guiconfig.Window.Post.{
  IsMenuTree, IsSafe, Sound-if, update_tree-Sound, with_ref_item-Sound,
}
use ve_root.Guiconfig.Change.{
  set_val, accepted, type_value, set_next, cycle, change_node, tree_set_val,
}

module _ (world : World) (find : ℕ → Option MenuNode) (tree : Tree) (t : IsMenuTree find tree) where
  set_val-Sound : (sc : Item) (v : Text) → IsSafe find tree (set_val world tree sc v)
  unfolding set_val
  set_val-Sound sc v w s = Sound-if find tree (text_eq v (w.conf.str_value sc)) _ _ s (
      with_ref_item-Sound find tree (update_tree tree) (set_in w) s.menu (λ e. absurd cc)
        (update_tree-Sound find tree t (set_in w) s.menu (λ e. absurd cc)))
    where
      set_in : Window → Window
      set_in w = record w { conf = world.set_value w.conf sc v; conf_changed = true }

  type_value-Sound :
      (sc : Item) (answers : List (Option Text))
      → IsSafe find tree (type_value world tree sc answers)
  unfolding type_value
  type_value-Sound sc [] w s = tt
  type_value-Sound sc (none ∷ answers) w s = s
  type_value-Sound sc (some x ∷ answers) w s =
      elim (Option-cases (accepted world tree sc x w.conf)) [
        | inl e ↦ rw (type_value, e) (type_value-Sound sc answers w s)
        | inr (x', e) ↦ rw (type_value, e) (set_val-Sound sc x' w s)
      ]

  set_next-Sound : (sc : Item) (o : Option ℕ) → IsSafe find tree (set_next world tree sc o)
  unfolding set_next
  set_next-Sound sc none w s = s
  set_next-Sound sc (some v) w s = set_val-Sound sc (tri_to_str v) w s

  cycle-Sound : (sc : Item) (vs : List ℕ) → IsSafe find tree (cycle world tree sc vs)
  unfolding cycle
  cycle-Sound sc (v ∷ []) w s = set_val-Sound sc (tri_to_str v) w s
  cycle-Sound sc [] w s = set_next-Sound sc (next_value [] (w.conf.tri_value sc)) w s
  cycle-Sound sc (v ∷ (v' ∷ vs)) w s =
      set_next-Sound sc (next_value (v ∷ (v' ∷ vs)) (w.conf.tri_value sc)) w s

  pub change_node-Sound :
      (n : MenuNode) (answers : List (Option Text))
      → IsSafe find tree (change_node world tree n answers)
  unfolding change_node
  change_node-Sound n answers w s =
      Sound-if find tree (changeable world tree w.conf n.attrs) _ _
        (Sound-if find tree (is_typed_in (tree.orig_type n.item)) _ _
          (type_value-Sound n.item answers w s) (cycle-Sound n.item (w.conf.assignable n.item) w s))
        s

  pub tree_set_val-Sound : (v : ℕ) (n : MenuNode) → IsSafe find tree (tree_set_val world tree v n)
  unfolding tree_set_val
  tree_set_val-Sound v n w s =
      Sound-if find tree (is_sc n.item && is_in_values v (w.conf.assignable n.item)) _ _
        (set_val-Sound n.item (tri_to_str v) w s) s
