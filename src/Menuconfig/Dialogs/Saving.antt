-- ===== src/Menuconfig/Dialogs/Saving.antt =====
-- `_save_dialog()` and the keys S and D of the main display (menuconfig.py).
use ve_root.Base.{
  ℕ, zero, suc, ◌≤◌, ◌<◌, ◌≡◌, refl, sym, Bool, true, false, Option, none, some, List, length,
  arith,
}
use ve_root.Menuconfig.Nodes.{Conf, Text}
use ve_root.Menuconfig.Keys.{Key}
use ve_root.Menuconfig.Session.{World, Session, Ui, pure, modify}
use ve_root.Menuconfig.Session.Post.{Post, Post-bind, Post-both, IsSound, Sound, Reads}
use ve_root.Menuconfig.Dialogs.{
  msg, input_dialog, save_file, save_answer, save_loop, save_dialog, save_done, save_config,
  min_done, save_min_config,
}
use ve_root.Menuconfig.Dialogs.Sound.{msg-Reads, input_dialog-Reads, SameConf, msg-SameConf}

-- A path that is returned was written, with the values of the session.
abbrev pub Written : (Conf → Text → Bool) → Option Text → Session → Type 0
Written save none s = Unit
Written save (some name) s = save s.conf name ≡ true

abbrev pub Saves : (Conf → Text → Bool) → ℕ → Option Text → Session → List Key → Type 0
Saves save n a s ks = IsSound s × (length ks ≤ n) × Written save a s

module _ (world : World) (save : Conf → Text → Bool) where
  save_file-Saves :
      (again : Text → Ui (Option Text)) (filename : Text) (b : Bool) (n : ℕ) (s : Session)
      (ks : List Key)
      → b ≡ save s.conf filename
      → IsSound s
      → length ks ≤ n
      → ((t : Text) (s' : Session) (ks' : List Key)
          → IsSound s'
          → length ks' ≤ length ks
          → Post (Saves save n) (again t s' ks'))
      → Post (Saves save n) (save_file world again filename b s ks)
  unfolding save_file
  save_file-Saves again filename true n s ks e v le rec =
      Post-bind (λ a s' ks'. Reads (length ks) a s' ks' × SameConf s.conf a s' ks') (Saves save n)
        msg (λ _. pure (some filename)) s ks
        (Post-both (Reads (length ks) {A = Option ℕ}) (SameConf s.conf {A = Option ℕ}) (msg s ks)
          (msg-Reads s ks v) (msg-SameConf s.conf s ks refl))
        (λ _ s' ks' h. (h.0.0, omega arith, rw h.1 (sym e)))
  save_file-Saves again filename false n s ks e v le rec =
      Post-bind (Reads (length ks) {A = Option ℕ}) (Saves save n) msg (λ _. again filename) s ks
        (msg-Reads s ks v) (λ _ s' ks' h. rec filename s' ks' h.0 (omega arith))

  save_answer-Saves :
      (again : Text → Ui (Option Text)) (a : Option Text) (n : ℕ) (s : Session) (ks : List Key)
      → IsSound s
      → length ks ≤ n
      → ((t : Text) (s' : Session) (ks' : List Key)
          → IsSound s'
          → length ks' ≤ length ks
          → Post (Saves save n) (again t s' ks'))
      → Post (Saves save n) (save_answer world save again a s ks)
  unfolding save_answer
  save_answer-Saves again none n s ks v le rec = (v, le, tt)
  save_answer-Saves again (some name) n s ks v le rec =
      save_file-Saves again (world.expand_user name) (save s.conf (world.expand_user name)) n s ks
        refl v le rec

  save_loop-Saves :
      (fuel : ℕ) (filename : Text) (n : ℕ) (s : Session) (ks : List Key)
      → IsSound s
      → length ks < fuel
      → length ks ≤ n
      → Post (Saves save n) (save_loop world save fuel filename s ks)
  unfolding save_loop
  save_loop-Saves zero filename n s ks v enough le = absurd (omega arith)
  save_loop-Saves (suc fuel) filename n s ks v enough le =
      Post-bind (Reads (length ks) {A = Option Text}) (Saves save n)
        (input_dialog world world.file_width filename)
        (save_answer world save (save_loop world save fuel)) s ks
        (input_dialog-Reads world world.file_width filename s ks v)
        (λ a s' ks' h.
          save_answer-Saves (save_loop world save fuel) a n s' ks' h.0 (omega arith)
            (λ t s'' ks'' v'' le''.
              save_loop-Saves fuel t n s'' ks'' v'' (omega arith) (omega arith)))

  -- A path that the save dialog returns was written successfully, with the values that the session
  -- still has; and the dialog never runs out of fuel.
  pub save_dialog-Saves :
      (filename : Text) (s : Session) (ks : List Key)
      → IsSound s
      → Post (Saves save (length ks)) (save_dialog world save filename s ks)
  unfolding save_dialog
  save_dialog-Saves filename s ks v =
      save_loop-Saves (suc (length ks)) filename (length ks) s ks v (omega arith) (omega arith)

save_done-IsSound : (a : Option Text) (s : Session) → IsSound s → IsSound (save_done a s)
unfolding save_done
save_done-IsSound none s v = v
save_done-IsSound (some name) s v = record {
  in_view = record {
    selected = v.in_view.selected;
    not_above = v.in_view.not_above;
    not_below = v.in_view.not_below;
  };
  saved = λ _. refl;
}

min_done-IsSound : (a : Option Text) (s : Session) → IsSound s → IsSound (min_done a s)
unfolding min_done
min_done-IsSound none s v = v
min_done-IsSound (some name) s v = record { in_view = v.in_view; saved = v.saved }

module _ (world : World) where
  pub save_config-Sound :
      (s : Session) (ks : List Key)
      → IsSound s
      → Post (Sound (length ks) {A = Unit {0}}) (save_config world s ks)
  unfolding save_config
  save_config-Sound s ks v =
      Post-bind (Saves world.write_config (length ks)) (Sound (length ks) {A = Unit {0}})
        (save_dialog world world.write_config s.conf_filename) (λ a. modify (save_done a)) s ks
        (save_dialog-Saves world world.write_config s.conf_filename s ks v)
        (λ a s' ks' h. (save_done-IsSound a s' h.0, h.1))

  pub save_min_config-Sound :
      (s : Session) (ks : List Key)
      → IsSound s
      → Post (Sound (length ks) {A = Unit {0}}) (save_min_config world s ks)
  unfolding save_min_config
  save_min_config-Sound s ks v =
      Post-bind (Saves world.write_min_config (length ks)) (Sound (length ks) {A = Unit {0}})
        (save_dialog world world.write_min_config s.minconf_filename) (λ a. modify (min_done a)) s
        ks (save_dialog-Saves world world.write_min_config s.minconf_filename s ks v)
        (λ a s' ks' h. (min_done-IsSound a s' h.0, h.1))
