-- ===== src/Menuconfig/Dialogs/Files.antt =====
-- `_load_dialog()` and `_save_dialog()` (menuconfig.py).
use ve_root.Base.{
  ℕ, zero, suc, ◌≤◌, ◌<◌, refl, Option, none, some, List, [], ◌∷◌, length, arith, Bool-cases, inl,
  inr, ◌==◌,
}
use ve_root.Menuconfig.Nodes.{MenuNode, Tree, Conf, Text}
use ve_root.Menuconfig.Keys.{Key}
use ve_root.Menuconfig.Navigate.{update_menu}
use ve_root.Menuconfig.Navigate.Frame.{update_menu-Keeps}
use ve_root.Menuconfig.Values.{selected_node}
use ve_root.Menuconfig.Values.Sound.{selected_node-Sound}
use ve_root.Menuconfig.Session.{World, Session, Ui, ◌>>=◌, pure, modify, try_ui}
use ve_root.Menuconfig.Session.Post.{
  Post, Post-bind, IsSound, Sound, Reads, Post-Sound, Sound-try_ui,
}
use ve_root.Menuconfig.Dialogs.{
  key_dialog, msg, input_dialog, take_conf, reveal, loaded, load_file, load_answer, load_loop,
  load_key, load_dialog,
}
use ve_root.Menuconfig.Dialogs.Sound.{key_dialog-Reads, msg-Reads, input_dialog-Reads}

module _ (world : World) (tree : Tree) where
  -- The loop is entered again at fewer keys.
  abbrev Again : {A : Type 0} → ℕ → ℕ → (Text → Ui A) → Type 0
  Again {A} n k again =
      (t : Text) (s : Session) (ks : List Key)
      → IsSound s
      → length ks ≤ k
      → Post (Sound n {A = A}) (again t s ks)

  reveal-Sound :
      (n : MenuNode) (s : Session) (ks : List Key)
      → IsSound s
      → Post
          (Sound (length ks) {A = Unit {0}})
          (try_ui (update_menu tree) (reveal world tree n s) ks)
  unfolding reveal
  reveal-Sound n s ks v =
      let v' : IsSound (reveal world tree n s) = record {
        in_view = record {
          selected = v.in_view.selected;
          not_above = v.in_view.not_above;
          not_below = v.in_view.not_below;
        };
        saved = v.saved;
      } in
      Sound-try_ui (update_menu tree) (reveal world tree n s) ks v'
        (update_menu-Keeps tree (reveal world tree n s).ui v'.in_view)

  loaded-Sound :
      (conf : Conf) (filename : Text) (s : Session) (ks : List Key)
      → IsSound s
      → Post (Sound (length ks) {A = Unit {0}}) (loaded world tree conf filename s ks)
  unfolding loaded take_conf
  loaded-Sound conf filename s ks v =
      let s' = take_conf world tree conf filename s in
      let v' : IsSound s' = record {
        in_view = record {
          selected = v.in_view.selected;
          not_above = v.in_view.not_above;
          not_below = v.in_view.not_below;
        };
        saved = λ _. refl;
      } in
      Post-bind (Sound (length ks) {A = MenuNode}) (Sound (length ks) {A = Unit {0}}) selected_node
        (λ n. modify (reveal world tree n) >>= λ _. try_ui (update_menu tree)) s' ks
        (selected_node-Sound s' ks v')
        (λ n s'' ks'' h.
          Post-Sound (length ks'') (length ks)
            (try_ui (update_menu tree) (reveal world tree n s'') ks'') h.1
            (reveal-Sound n s'' ks'' h.0))

  load_file-Sound :
      (again : Text → Ui (Unit {0})) (filename : Text) (o : Option Conf) (n : ℕ) (s : Session)
      (ks : List Key)
      → IsSound s
      → length ks ≤ n
      → Again n (length ks) again
      → Post (Sound n {A = Unit {0}}) (load_file world tree again filename o s ks)
  unfolding load_file
  load_file-Sound again filename none n s ks v le rec =
      Post-bind (Reads (length ks) {A = Option ℕ}) (Sound n {A = Unit {0}}) msg
        (λ _. again filename) s ks (msg-Reads s ks v)
        (λ _ s' ks' h. rec filename s' ks' h.0 (omega arith))
  load_file-Sound again filename (some conf) n s ks v le rec =
      Post-bind (Sound (length ks) {A = Unit {0}}) (Sound n {A = Unit {0}})
        (loaded world tree conf filename) (λ _. msg >>= λ _. pure tt) s ks
        (loaded-Sound conf filename s ks v)
        (λ _ s' ks' h.
          Post-bind (Reads (length ks') {A = Option ℕ}) (Sound n {A = Unit {0}}) msg (λ _. pure tt)
            s' ks' (msg-Reads s' ks' h.0) (λ _ s'' ks'' g. (g.0, omega arith)))

  load_answer-Sound :
      (again : Text → Ui (Unit {0})) (a : Option Text) (n : ℕ) (s : Session) (ks : List Key)
      → IsSound s
      → length ks ≤ n
      → Again n (length ks) again
      → Post (Sound n {A = Unit {0}}) (load_answer world tree again a s ks)
  unfolding load_answer
  load_answer-Sound again none n s ks v le rec = (v, le)
  load_answer-Sound again (some name) n s ks v le rec =
      load_file-Sound again (world.expand_user name)
        (world.load_config s.conf (world.expand_user name)) n s ks v le rec

  load_loop-Sound :
      (fuel : ℕ) (filename : Text) (n : ℕ) (s : Session) (ks : List Key)
      → IsSound s
      → length ks < fuel
      → length ks ≤ n
      → Post (Sound n {A = Unit {0}}) (load_loop world tree fuel filename s ks)
  unfolding load_loop
  load_loop-Sound zero filename n s ks v enough le = absurd (omega arith)
  load_loop-Sound (suc fuel) filename n s ks v enough le =
      Post-bind (Reads (length ks) {A = Option Text}) (Sound n {A = Unit {0}})
        (input_dialog world world.file_width filename)
        (load_answer world tree (load_loop world tree fuel)) s ks
        (input_dialog-Reads world world.file_width filename s ks v)
        (λ a s' ks' h.
          load_answer-Sound (load_loop world tree fuel) a n s' ks' h.0 (omega arith)
            (λ t s'' ks'' v'' le''.
              load_loop-Sound fuel t n s'' ks'' v'' (omega arith) (omega arith)))

  load_key-Sound :
      (c : Option ℕ) (n : ℕ) (s : Session) (ks : List Key)
      → IsSound s
      → length ks ≤ n
      → Post (Sound n {A = Unit {0}}) (
          load_key world tree c
            (λ s ks. load_loop world tree (suc (length ks)) s.conf_filename s ks)
            s
            ks)
  unfolding load_key
  load_key-Sound none n s ks v le = (v, le)
  load_key-Sound (some c) n s ks v le = elim (Bool-cases (c == b'c')) [
    | inl e ↦ rw e (v, le)
    | inr e ↦ rw e (load_loop-Sound (suc (length ks)) s.conf_filename n s ks v (omega arith) le)
  ]

  -- Loading a configuration leaves a sound interface, whatever is answered.
  pub load_dialog-Sound :
      (s : Session) (ks : List Key)
      → IsSound s
      → Post (Sound (length ks) {A = Unit {0}}) (load_dialog world tree s ks)
  unfolding load_dialog
  load_dialog-Sound s ks v = elim (Bool-cases s.conf_changed) [
    | inl e ↦ simp e (
        Post-bind (Reads (length ks) {A = Option ℕ}) (Sound (length ks) {A = Unit {0}})
          (key_dialog (b'o' ∷ (b'c' ∷ []))) _ s ks (key_dialog-Reads (b'o' ∷ (b'c' ∷ [])) s ks v)
          (λ c s' ks' h. load_key-Sound c (length ks) s' ks' h.0 (omega arith)))
    | inr e ↦ simp e (
        load_loop-Sound (suc (length ks)) s.conf_filename (length ks) s ks v (omega arith)
          (omega arith))
  ]
