-- ===== src/Guiconfig/Main/Sound.antt =====
-- The main loop of guiconfig.py: the tree stays up to date, and the script ends as it shall.
use mathlib.Core.Path.{subst}
use ve_root.Base.{
  ℕ, ◌≡◌, refl, Bool, true, false, Option, none, some, List, [], ◌∷◌, Bool-cases, inl, inr,
  if◌then◌else◌, sym,
}
use ve_root.Menuconfig.Nodes.{Text, MenuNode, Tree}
use ve_root.Menuconfig.Values.{changeable}
use ve_root.Menuconfig.Session.{World}
use ve_root.Menuconfig.Dialogs.{Exit}
use ve_root.Guiconfig.Window.{
  Window, Outcome, waits, raises, exhausted, returns, Gui, ◌>>=◌, pure, modify, set_open, select,
}
use ve_root.Guiconfig.Window.Post.{Post, IsMenuTree, IsSound, Sound, Sound-bind, Sound-if, IsSafe}
use ve_root.Guiconfig.Files.Sound.{
  Kept, Quits, save-Sound, save_as-Sound, save_minimal-Sound, on_quit-Quits, open_config-Sound,
}
use ve_root.Guiconfig.Change.{change_node, tree_set_val}
use ve_root.Guiconfig.Change.Sound.{change_node-Sound, tree_set_val-Sound}
use ve_root.Guiconfig.Moves.{enter_menu_and_select_first, tree_open, tree_toggle_open}
use ve_root.Guiconfig.Moves.Sound.{
  select-Sound, set_open-Sound, enter_menu_and_select_first-Sound, leave_menu-Sound,
  toggle_showall-Sound, toggle_tree_mode-Sound, jump_to_selected-Sound, tree_open-Sound,
  tree_toggle_open-Sound,
}
use ve_root.Guiconfig.Main.Children.{has_children-Symbol}
use ve_root.Guiconfig.Main.{
  Event, quit, call, Callback, save_now, save_file_as, save_minimal_as, open_file, showall, left,
  right, enter_key, space_key, click, tri_key, focus_on, opens, closes, tree_mode, jump,
  change_match, set_match, set_focus, find, has_children, on_found, on_node, on_item, on_focus,
  single_menu_mode_menu, enter_node, toggle_node, left_key, right_node, click_node, open_node,
  tree_mode_at, callback, handle, mainloop,
}

module _ (world : World) (tree : Tree) (nodes : List MenuNode)
    (t : IsMenuTree (find nodes) tree) where
  abbrev Safe : {A : Type 0} → Gui A → Type 0
  Safe = IsSafe (find nodes) tree

  -- Safe on every node that is found.
  abbrev SafeOn : (MenuNode → Gui (Unit {0})) → Type 0
  SafeOn f = (n : MenuNode) → find nodes n.id ≡ some n → Safe (f n)

  on_found-Safe :
      (o : Option MenuNode) (f : MenuNode → Gui (Unit {0}))
      → SafeOn f
      → ((n : MenuNode) → o ≡ some n → find nodes n.id ≡ some n)
      → Safe (on_found world tree nodes o f)
  unfolding on_found
  on_found-Safe none f h k w s = s
  on_found-Safe (some n) f h k w s = h n (k n refl) w s

  found_again : (i : ℕ) (n : MenuNode) → find nodes i ≡ some n → find nodes n.id ≡ some n
  found_again i n e = subst (λ j. find nodes j ≡ some n) (sym (t.found i n e).0) e

  on_node-Safe :
      (i : ℕ) (f : MenuNode → Gui (Unit {0})) → SafeOn f → Safe (on_node world tree nodes i f)
  unfolding on_node
  on_node-Safe i f h = on_found-Safe (find nodes i) f h (found_again i)

  on_item-Safe :
      (o : Option ℕ) (f : MenuNode → Gui (Unit {0}))
      → SafeOn f
      → Safe (on_item world tree nodes o f)
  unfolding on_item
  on_item-Safe none f h w s = s
  on_item-Safe (some i) f h w s = on_node-Safe i f h w s

  on_focus-Safe : (f : MenuNode → Gui (Unit {0})) → SafeOn f → Safe (on_focus world tree nodes f)
  unfolding on_focus
  on_focus-Safe f h w s = on_item-Safe w.focus f h w s

  abbrev sound_if :
      {A : Type 0} (b : Bool) (o p : Outcome A)
      → Sound (find nodes) tree o
      → Sound (find nodes) tree p
      → Sound (find nodes) tree (if b then o else p)
  sound_if = Sound-if (find nodes) tree

  -- An item is opened or closed where it has children.
  toggle_open-Safe :
      (n : MenuNode) (w : Window) (o : Outcome (Unit {0}))
      → find nodes n.id ≡ some n
      → IsSound (find nodes) tree w
      → Sound (find nodes) tree o
      → Sound (find nodes) tree (if has_children n.id w.rows then tree_toggle_open tree n w else o)
  toggle_open-Safe n w o e s h = elim (Bool-cases (has_children n.id w.rows)) [
    | inl has ↦ simp has (
        tree_toggle_open-Sound (find nodes) tree t n w s
          (has_children-Symbol nodes tree t w n.id n s e has))
    | inr bare ↦ simp bare h
  ]

  enter_first-Safe :
      (n : MenuNode) → find nodes n.id ≡ some n → Safe (enter_menu_and_select_first tree n)
  enter_first-Safe n e =
      enter_menu_and_select_first-Sound (find nodes) tree t n (t.found n.id n e).1

  enter_node-Safe : (answers : List (Option Text)) → SafeOn (enter_node world tree nodes answers)
  unfolding enter_node
  enter_node-Safe answers n e w s = toggle_open-Safe n w _ e s (
      sound_if (single_menu_mode_menu world tree nodes n w) _ _ (enter_first-Safe n e w s)
        (change_node-Sound world (find nodes) tree t n answers w s))

  toggle_node-Safe : (answers : List (Option Text)) → SafeOn (toggle_node world tree nodes answers)
  unfolding toggle_node
  toggle_node-Safe answers n e w s =
      sound_if (changeable world tree w.conf n.attrs) _ _
        (change_node-Sound world (find nodes) tree t n answers w s)
        (sound_if (single_menu_mode_menu world tree nodes n w) _ _ (enter_first-Safe n e w s)
          (toggle_open-Safe n w _ e s s))

  left_key-Safe : Safe (left_key world tree nodes)
  unfolding left_key
  left_key-Safe w s = sound_if w.single_menu _ _ (leave_menu-Sound (find nodes) tree t w s) s

  right_node-Safe : SafeOn (right_node world tree nodes)
  unfolding right_node
  right_node-Safe n e w s =
      sound_if (single_menu_mode_menu world tree nodes n w) _ _ (enter_first-Safe n e w s) s

  click_node-Safe : (answers : List (Option Text)) → SafeOn (click_node world tree nodes answers)
  unfolding click_node
  click_node-Safe answers n e w s =
      change_node-Sound world (find nodes) tree t n answers (select n.id w)
        (select-Sound (find nodes) tree t n.id w s)

  set_focus-Safe : (i : ℕ) → Safe (modify (set_focus i))
  set_focus-Safe i w s = record { menu = s.menu; saved = s.saved; current = s.current }

  open_node-Safe : SafeOn (open_node world tree nodes)
  unfolding open_node
  open_node-Safe n e w s =
      sound_if (has_children n.id w.rows) _ _
        (Sound-bind (find nodes) tree (λ w. tree_open tree n (set_focus n.id w))
          (λ _. modify (set_open n.id true)) w
          (tree_open-Sound (find nodes) tree t n (set_focus n.id w) (set_focus-Safe n.id w s))
          (λ _. set_open-Sound (find nodes) tree t n.id true))
        s

  tree_mode_at-Safe :
      (o : Option MenuNode) (i : ℕ) → find nodes i ≡ o → Safe (tree_mode_at world tree nodes o)
  unfolding tree_mode_at
  tree_mode_at-Safe none i e w s = s
  tree_mode_at-Safe (some n) i e w s =
      let (m, e') = t.has_parent i n e in toggle_tree_mode-Sound (find nodes) tree t n m e' w s

  callback-Safe : (c : Callback) → Safe (callback world tree nodes c)
  unfolding callback
  callback-Safe save_now = save-Sound world (find nodes) tree
  callback-Safe (save_file_as answers) = save_as-Sound world (find nodes) tree answers
  callback-Safe (save_minimal_as answers) = save_minimal-Sound world (find nodes) tree answers
  callback-Safe (open_file anyway answers) =
      open_config-Sound world (find nodes) tree t anyway answers
  callback-Safe (showall ref) = toggle_showall-Sound (find nodes) tree t ref
  callback-Safe left = left_key-Safe
  callback-Safe right = on_focus-Safe (right_node world tree nodes) right_node-Safe
  callback-Safe (enter_key answers) =
      on_focus-Safe (enter_node world tree nodes answers) (enter_node-Safe answers)
  callback-Safe (space_key answers) =
      on_focus-Safe (toggle_node world tree nodes answers) (toggle_node-Safe answers)
  callback-Safe (click i answers) =
      on_node-Safe i (click_node world tree nodes answers) (click_node-Safe answers)
  callback-Safe (tri_key v) =
      on_focus-Safe (tree_set_val world tree v)
        (λ n e. tree_set_val-Sound world (find nodes) tree t v n)
  callback-Safe (focus_on i) = set_focus-Safe i
  callback-Safe (opens i) = on_node-Safe i (open_node world tree nodes) open_node-Safe
  callback-Safe (closes i) = set_open-Sound (find nodes) tree t i false
  callback-Safe (tree_mode i) = tree_mode_at-Safe (find nodes i) i refl
  callback-Safe (jump i) = on_node-Safe i _ (λ n e. jump_to_selected-Sound (find nodes) tree t n)
  callback-Safe (change_match i answers) =
      on_node-Safe i (λ n. change_node world tree n answers)
        (λ n e. change_node-Sound world (find nodes) tree t n answers)
  callback-Safe (set_match i v) =
      on_node-Safe i (tree_set_val world tree v)
        (λ n e. tree_set_val-Sound world (find nodes) tree t v n)

  -- A callback that does not end the script.
  goes_on-Quits :
      (m : Gui (Unit {0})) (w : Window)
      → Sound (find nodes) tree (m w)
      → Quits world (find nodes) tree ((m >>= λ _. pure none) w)
  goes_on-Quits m w h = go (m w) h
    where
      go :
          (o : Outcome (Unit {0}))
          → Sound (find nodes) tree o
          → Quits world (find nodes) tree (elim o [
            | waits ↦ waits
            | raises w' ↦ raises w'
            | exhausted ↦ exhausted
            | returns a w' ↦ returns none w'
          ])
      go waits h = tt
      go (raises w) h = h
      go exhausted h = h
      go (returns a w) h = (h, tt)

  abbrev MayQuit : Event → Type 0
  MayQuit e =
      (w : Window)
      → IsSound (find nodes) tree w
      → Quits world (find nodes) tree (handle world tree nodes e w)

  handle-Quits : (e : Event) → MayQuit e
  unfolding handle
  handle-Quits (quit answers) w s = on_quit-Quits world (find nodes) tree answers w s
  handle-Quits (call c) w s = goes_on-Quits (callback world tree nodes c) w (callback-Safe c w s)

  -- The end of the script.
  abbrev pub Ends : Exit → Window → Type 0
  Ends x w = IsSound (find nodes) tree w × Kept (some x) w

  -- For every sequence of what the user does, with every answer to every dialog, from a sound
  -- window of a menu tree with consistent links: no loop runs out of fuel, and if the script ends,
  -- its window is sound, and the values are those of the file, unless the user answered that they
  -- shall not be saved.
  pub mainloop-Ends :
      (events : List Event) (w : Window)
      → IsSound (find nodes) tree w
      → Post Ends (IsSound (find nodes) tree) (mainloop world tree nodes events w)
  unfolding mainloop
  mainloop-Ends [] w s = tt
  mainloop-Ends (e ∷ es) w s =
      go (handle world tree nodes e w) (handle-Quits e w s) (mainloop-Ends es)
    where
      go :
          (o : Outcome (Option Exit))
          → Quits world (find nodes) tree o
          → ((w' : Window)
              → IsSound (find nodes) tree w'
              → Post Ends (IsSound (find nodes) tree) (mainloop world tree nodes es w'))
          → Post Ends (IsSound (find nodes) tree) (elim o [
            | waits ↦ waits
            | raises w' ↦ mainloop world tree nodes es w'
            | exhausted ↦ exhausted
            | returns r w' ↦ elim r [
              | none ↦ mainloop world tree nodes es w'
              | some x ↦ returns x w'
            ]
          ])
      go waits h k = tt
      go (raises w') h k = k w' h
      go exhausted h k = h
      go (returns none w') h k = k w' h.0
      go (returns (some x) w') h k = h
