-- ===== src/Guiconfig/Files/Sound.antt =====
-- The callbacks of guiconfig.py that load and save files, and the one that ends the script.
use ve_root.Base.{
  ℕ, ◌≡◌, refl, Bool, true, false, not, ◌&&◌, Option, none, some, List, [], ◌∷◌, Bool-cases,
  Option-cases, inl, inr,
}
use ve_root.Menuconfig.Nodes.{Text, MenuNode, Tree}
use ve_root.Menuconfig.Session.{World}
use ve_root.Menuconfig.Dialogs.{Exit, no_changes, saved, not_saved}
use ve_root.Guiconfig.Window.{Window, Outcome}
use ve_root.Guiconfig.Window.Post.{Post, IsMenuTree, IsSound, IsSafe, Sound-if, update_tree-Sound}
use ve_root.Guiconfig.Files.{
  save, save_as, save_minimal, quit_loop, on_quit, loaded, open_loop, open_config,
}

-- The script ends with the values in a file, unless the user refused that.
abbrev pub Kept : Option Exit → Window → Type 0
Kept (some not_saved) w = Unit
Kept (some no_changes) w = w.conf ≡ w.on_disk
Kept (some saved) w = w.conf ≡ w.on_disk
Kept none w = Unit

module _ (world : World) (find : ℕ → Option MenuNode) (tree : Tree) where
  pub save-Sound : IsSafe find tree (save world)
  unfolding save
  save-Sound w s =
      Sound-if find tree (world.write_config w.conf w.conf_filename) _ _
        record { menu = s.menu; saved = λ _. refl; current = s.current } s

  pub save_as-Sound : (answers : List Text) → IsSafe find tree (save_as world answers)
  unfolding save_as
  save_as-Sound [] w s = tt
  save_as-Sound ([] ∷ answers) w s = s
  save_as-Sound ((c ∷ name) ∷ answers) w s =
      Sound-if find tree (world.write_config w.conf (c ∷ name)) _ _
        record { menu = s.menu; saved = λ _. refl; current = s.current } (save_as-Sound answers w s)

  pub save_minimal-Sound : (answers : List Text) → IsSafe find tree (save_minimal world answers)
  unfolding save_minimal
  save_minimal-Sound [] w s = tt
  save_minimal-Sound ([] ∷ answers) w s = s
  save_minimal-Sound ((c ∷ name) ∷ answers) w s =
      Sound-if find tree (world.write_min_config w.conf (c ∷ name)) _ _
        record { menu = s.menu; saved = s.saved; current = s.current }
        (save_minimal-Sound answers w s)

  -- A sound window, and what the end of the script needs.
  abbrev pub Quits : Outcome (Option Exit) → Type 0
  Quits = Post (λ r w. IsSound find tree w × Kept r w) (IsSound find tree)

  quit_loop-Quits :
      (answers : List (Option Bool)) (w : Window)
      → IsSound find tree w
      → Quits (quit_loop world answers w)
  unfolding quit_loop
  quit_loop-Quits [] w s = tt
  quit_loop-Quits (none ∷ answers) w s = (s, tt)
  quit_loop-Quits (some false ∷ answers) w s = (s, tt)
  quit_loop-Quits (some true ∷ answers) w s =
      elim (Bool-cases (world.write_config w.conf w.conf_filename)) [
        | inl e ↦ rw e (record { menu = s.menu; saved = λ _. refl; current = s.current }, refl)
        | inr e ↦ rw e (quit_loop-Quits answers w s)
      ]

  pub on_quit-Quits :
      (answers : List (Option Bool)) (w : Window)
      → IsSound find tree w
      → Quits (on_quit world answers w)
  unfolding on_quit
  on_quit-Quits answers w s = elim (Bool-cases w.conf_changed) [
    | inl e ↦ simp e (quit_loop-Quits answers w s)
    | inr e ↦ simp e (s, s.saved e)
  ]

  open_loop-Sound :
      IsMenuTree find tree → (answers : List Text) → IsSafe find tree (open_loop world tree answers)
  unfolding open_loop loaded
  open_loop-Sound t [] w s = tt
  open_loop-Sound t ([] ∷ answers) w s = s
  open_loop-Sound t ((c ∷ name) ∷ answers) w s =
      elim (Option-cases (world.load_config w.conf (c ∷ name))) [
        | inl e ↦ rw (open_loop, e) (open_loop-Sound t answers w s)
        | inr (conf, e) ↦
            rw (open_loop, e)
              (update_tree-Sound find tree t (loaded world tree conf (c ∷ name) w) s.menu
                (λ _. refl))
      ]

  pub open_config-Sound :
      IsMenuTree find tree
      → (anyway : Bool) (answers : List Text)
      → IsSafe find tree (open_config world tree anyway answers)
  unfolding open_config
  open_config-Sound t anyway answers w s =
      Sound-if find tree (w.conf_changed && not anyway) _ _ s (open_loop-Sound t answers w s)
