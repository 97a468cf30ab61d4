-- ===== src/Guiconfig/Files.antt =====
-- Files (guiconfig.py): `_save()`, `_save_as()`, `_save_minimal()`, `_open()` and `_on_quit()`. The
-- answers to the dialogs are lists; the script waits where there is no further answer. An empty
-- text is the file name of a dialog that was cancelled.
pub mod Sound
use ve_root.Base.{
  ℕ, ◌≡◌, refl, Bool, true, false, not, ◌&&◌, ◌||◌, Option, none, some, List, [], ◌∷◌,
  if◌then◌else◌,
}
use ve_root.Menuconfig.Nodes.{Text, MenuNode, Tree, Conf}
use ve_root.Menuconfig.Values.{needs_save}
use ve_root.Menuconfig.Session.{World}
use ve_root.Menuconfig.Dialogs.{Exit, no_changes, saved, not_saved}
use ve_root.Guiconfig.Shown.{shown_menu_nodes}
use ve_root.Guiconfig.Window.{
  Window, Outcome, waits, returns, Gui, ◌>>=◌, ◌>>◌, pure, modify, update_tree,
}

unfoldable pub is_empty : List MenuNode → Bool
is_empty [] = true
is_empty (_ ∷ _) = false

pub is_empty_iff : (ns : List MenuNode) → is_empty ns ≡ true → ns ≡ []
unfolding is_empty
is_empty_iff [] e = refl
is_empty_iff (n ∷ ns) e = cc

module _ (world : World) where
  -- The configuration has been written.
  abbrev pub written : Window → Window
  written w = record w { on_disk = w.conf }

  unfoldable pub save : Gui (Unit {0})
  save w =
      if world.write_config w.conf w.conf_filename
      then returns tt (record (written w) { conf_changed = false })
      else returns tt w

  -- A successful `_save_as()` does not reset `_conf_changed`.
  unfoldable pub save_as : List Text → Gui (Unit {0})
  save_as [] w = waits
  save_as ([] ∷ answers) w = returns tt w
  save_as ((c ∷ name) ∷ answers) w =
      if world.write_config w.conf (c ∷ name)
      then returns tt (record (written w) { conf_filename = c ∷ name })
      else save_as answers w

  unfoldable pub save_minimal : List Text → Gui (Unit {0})
  save_minimal [] w = waits
  save_minimal ([] ∷ answers) w = returns tt w
  save_minimal ((c ∷ name) ∷ answers) w =
      if world.write_min_config w.conf (c ∷ name)
      then returns tt (record w { minconf_filename = c ∷ name })
      else save_minimal answers w

  -- `_on_quit()`: how the script ends, or nothing if it goes on.
  quit_loop : List (Option Bool) → Gui (Option Exit)
  quit_loop [] w = waits
  quit_loop (none ∷ answers) w = returns none w
  quit_loop (some false ∷ answers) w = returns (some not_saved) w
  quit_loop (some true ∷ answers) w =
      if world.write_config w.conf w.conf_filename
      then returns (some saved) (written w)
      else quit_loop answers w

  unfoldable pub on_quit : List (Option Bool) → Gui (Option Exit)
  unfolding quit_loop
  on_quit answers w = if w.conf_changed then quit_loop answers w else returns (some no_changes) w

module _ (world : World) (tree : Tree) where
  -- The window with the values of a file.
  loaded : Conf → Text → Window → Window
  unfolding is_empty shown_menu_nodes needs_save
  loaded conf name w = record w {
    conf = conf;
    on_disk = conf;
    conf_filename = name;
    conf_changed = needs_save world tree conf;
    show_all =
        w.show_all || (w.single_menu && is_empty (shown_menu_nodes conf w.show_all w.cur_menu));
  }

  open_loop : List Text → Gui (Unit {0})
  unfolding loaded
  open_loop [] w = waits
  open_loop ([] ∷ answers) w = returns tt w
  open_loop ((c ∷ name) ∷ answers) w = elim (world.load_config w.conf (c ∷ name)) [
    | none ↦ open_loop answers w
    | some conf ↦ update_tree tree (loaded conf (c ∷ name) w)
  ]

  -- `_open()`; `anyway` is the answer to the question about unsaved changes.
  unfoldable pub open_config : (anyway : Bool) → List Text → Gui (Unit {0})
  unfolding open_loop
  open_config anyway answers w =
      if w.conf_changed && not anyway then returns tt w else open_loop answers w
