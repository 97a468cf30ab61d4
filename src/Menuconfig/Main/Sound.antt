-- ===== src/Menuconfig/Main/Sound.antt =====
-- The soundness of the interface across the main loop of menuconfig.py.
use ve_root.Base.{
  ℕ, zero, suc, ◌<◌, refl, Bool, true, false, ◌&&◌, ◌||◌, Option, none, some, List, [], ◌∷◌, length,
  arith, Bool-cases, inl, inr, ◌==◌, if◌then◌else◌, Ensures, Ensures-if, Ensures-none, Ensures-some,
}
use ve_root.Menuconfig.Nodes.{Tree}
use ve_root.Menuconfig.Keys.{
  Key, char, key_left, key_right, key_up, key_down, key_home, key_end, key_npage, key_ppage,
  key_backspace, key_resize,
}
use ve_root.Menuconfig.State.{
  State, select_next_menu_entry, select_prev_menu_entry, select_last_menu_entry,
  select_first_menu_entry, page_down, page_up,
}
use ve_root.Menuconfig.Navigate.{leave_menu, toggle_show_all}
use ve_root.Menuconfig.Navigate.Keep.{toggle_show_all-InView}
use ve_root.Menuconfig.Navigate.Frame.{leave_menu-Keeps, toggle-SameValues}
use ve_root.Menuconfig.Session.{World, Session, Ui, ◌>>=◌, pure, try_ui, modify, resize}
use ve_root.Menuconfig.Session.Post.{Post, Post-bind, IsSound, Sound, Sound-try_ui}
use ve_root.Menuconfig.Values.Sound.{set_sel_node_tri_val-Sound}
use ve_root.Menuconfig.Dialogs.{Exit, quit_dialog}
use ve_root.Menuconfig.Dialogs.Sound.{resize-IsSound}
use ve_root.Menuconfig.Dialogs.Closing.{Quits, Kept, quit_dialog-Quits}
use ve_root.Menuconfig.Dialogs.Files.{load_dialog-Sound}
use ve_root.Menuconfig.Dialogs.Saving.{save_config-Sound, save_min_config-Sound}
use ve_root.Menuconfig.Fullscreen.Sound.{IsSafe}
use ve_root.Menuconfig.Main.{
  on_menu, enter_or_change, resize_now, switch_help, switch_name, ended, go_on, leave,
  leave_or_quit, move_char, change_char, is_leave, mode_char, after_leave, handle_char, handle,
  menuconfig_loop, menuconfig,
}
use ve_root.Menuconfig.Main.Safe.{
  IsSafe-bind, on_menu-Sound, toggle_or_enter-Sound, enter_or_change-Sound, resize_now-Sound,
  jump-Sound, inform-Sound,
}
use ve_root.Menuconfig.Main.Keeps.{
  KeepsView, next-KeepsView, prev-KeepsView, last-KeepsView, first-KeepsView, page_down-KeepsView,
  page_up-KeepsView,
}

module _ (world : World) (tree : Tree) where
  -- The key either keeps the program running, or ends it as the quit dialog does.
  abbrev MayQuit : Ui (Option Exit) → Type 0
  MayQuit m = (s : Session) (ks : List Key) → IsSound s → Post (Quits (length ks)) (m s ks)

  go_on-MayQuit : (m : Ui (Unit {0})) → IsSafe m → MayQuit (go_on world tree m)
  unfolding go_on
  go_on-MayQuit m safe s ks v =
      Post-bind (Sound (length ks) {A = Unit {0}}) (Quits (length ks)) m (λ _. pure none) s ks
        (safe s ks v) (λ _ s' ks' h. (h.0, h.1, tt))

  leave-MayQuit : MayQuit (leave world tree)
  unfolding leave
  leave-MayQuit =
      go_on-MayQuit (try_ui (leave_menu tree))
        (λ s ks v. Sound-try_ui (leave_menu tree) s ks v (leave_menu-Keeps tree s.ui v.in_view))

  MayQuit-elim :
      {A : Type 0} (P : A → Type 0) (o : Option A) (f : A → Ui (Option Exit)) (m : Ui (Option Exit))
      → Ensures P o
      → ((a : A) → P a → MayQuit (f a))
      → MayQuit m
      → MayQuit (elim o [ some a ↦ f a | none ↦ m ])
  MayQuit-elim P none f m h k g = g
  MayQuit-elim P (some a) f m h k g = k a (h a refl)

  MayQuit-if :
      (b : Bool) (m n : Ui (Option Exit)) → MayQuit m → MayQuit n → MayQuit (if b then m else n)
  MayQuit-if true m n h k = h
  MayQuit-if false m n h k = k

  move_char-KeepsView : (c : ℕ) → Ensures KeepsView (move_char world tree c)
  unfolding move_char
  move_char-KeepsView c = Ensures-if KeepsView _ _ _ (Ensures-some KeepsView _ next-KeepsView) (
      Ensures-if KeepsView _ _ _ (Ensures-some KeepsView _ prev-KeepsView) (
        Ensures-if KeepsView _ _ _ (Ensures-some KeepsView _ page_down-KeepsView) (
          Ensures-if KeepsView _ _ _ (Ensures-some KeepsView _ page_up-KeepsView) (
            Ensures-if KeepsView _ _ _ (Ensures-some KeepsView _ last-KeepsView) (
              Ensures-if KeepsView _ _ _ (Ensures-some KeepsView _ first-KeepsView)
                (Ensures-none KeepsView))))))

  abbrev Safe : Ui (Unit {0}) → Type 0
  Safe m = IsSafe m

  change_char-Safe : (c : ℕ) → Ensures Safe (change_char world tree c)
  unfolding change_char
  change_char-Safe c =
      Ensures-if Safe _ _ _ (Ensures-some Safe _ (toggle_or_enter-Sound world tree)) (
        Ensures-if Safe _ _ _ (Ensures-some Safe _ (enter_or_change-Sound world tree)) (
          Ensures-if Safe _ _ _ (Ensures-some Safe _ (set_sel_node_tri_val-Sound world tree 0)) (
            Ensures-if Safe _ _ _ (Ensures-some Safe _ (set_sel_node_tri_val-Sound world tree 1)) (
              Ensures-if Safe _ _ _ (Ensures-some Safe _ (set_sel_node_tri_val-Sound world tree 2))
                (Ensures-none Safe)))))

  toggle-KeepsView : KeepsView (toggle_show_all tree)
  toggle-KeepsView t v = (toggle_show_all-InView tree t v, toggle-SameValues tree t)

  switch_help-KeepsView : KeepsView (switch_help world tree)
  unfolding switch_help
  switch_help-KeepsView t v = (
    record { selected = v.selected; not_above = v.not_above; not_below = v.not_below },
    record { conf = refl; changed = refl },
  )

  switch_name-KeepsView : KeepsView (switch_name world tree)
  unfolding switch_name
  switch_name-KeepsView t v = (
    record { selected = v.selected; not_above = v.not_above; not_below = v.not_below },
    record { conf = refl; changed = refl },
  )

  help-Safe : IsSafe (on_menu world tree (switch_help world tree) >>= λ _. resize_now world tree)
  help-Safe =
      IsSafe-bind (on_menu world tree (switch_help world tree)) (λ _. resize_now world tree)
        ((on_menu-Sound world tree) (switch_help world tree) switch_help-KeepsView)
        (λ _. (resize_now-Sound world tree))

  mode_char-Safe : (c : ℕ) → Ensures Safe (mode_char world tree c)
  unfolding mode_char
  mode_char-Safe c = Ensures-if Safe _ _ _ (Ensures-some Safe _ (load_dialog-Sound world tree)) (
      Ensures-if Safe _ _ _ (Ensures-some Safe _ (save_config-Sound world)) (
        Ensures-if Safe _ _ _ (Ensures-some Safe _ (save_min_config-Sound world)) (
          Ensures-if Safe _ _ _ (Ensures-some Safe _ (jump-Sound world tree)) (
            Ensures-if Safe _ _ _ (Ensures-some Safe _ (inform-Sound world tree)) (
              Ensures-if Safe _ _ _
                (Ensures-some Safe
                  (on_menu world tree (switch_help world tree) >>= λ _. resize_now world tree)
                  help-Safe)
                (Ensures-if Safe _ _ _
                  (Ensures-some Safe (on_menu world tree (switch_name world tree))
                    ((on_menu-Sound world tree) (switch_name world tree) switch_name-KeepsView))
                  (Ensures-if Safe _ _ _
                    (Ensures-some Safe (on_menu world tree (toggle_show_all tree))
                      ((on_menu-Sound world tree) (toggle_show_all tree) toggle-KeepsView))
                    (Ensures-none Safe))))))))

  after_leave-MayQuit : (c : ℕ) → MayQuit (after_leave world tree c)
  unfolding after_leave
  after_leave-MayQuit c =
      MayQuit-elim Safe (mode_char world tree c) (go_on world tree) _ (mode_char-Safe c)
        go_on-MayQuit
        (MayQuit-if (c == b'q' || c == b'Q') (quit_dialog world tree) (pure none)
          (quit_dialog-Quits world tree) (λ s ks v. (v, omega arith, tt)))

  leave_or_quit-MayQuit : (c : ℕ) → MayQuit (leave_or_quit world tree c)
  unfolding leave_or_quit
  leave_or_quit-MayQuit c s ks v =
      elim (Bool-cases (c == 0x1B && s.cur_menu.id == tree.top_node.id)) [
        | inl e ↦ simp e (quit_dialog-Quits world tree s ks v)
        | inr e ↦ simp e (leave-MayQuit s ks v)
      ]

  handle_char-MayQuit : (c : ℕ) → MayQuit (handle_char world tree c)
  unfolding handle_char
  handle_char-MayQuit c =
      MayQuit-elim KeepsView (move_char world tree c) _ _ (move_char-KeepsView c)
        (λ f keep. go_on-MayQuit (on_menu world tree f) ((on_menu-Sound world tree) f keep))
        (MayQuit-elim Safe (change_char world tree c) (go_on world tree) _ (change_char-Safe c)
          go_on-MayQuit
          (MayQuit-if (is_leave world tree c) _ _ (leave_or_quit-MayQuit c)
            (after_leave-MayQuit c)))

  go_on_menu-MayQuit :
      (f : State → State) → KeepsView f → MayQuit (go_on world tree (on_menu world tree f))
  go_on_menu-MayQuit f keep =
      go_on-MayQuit (on_menu world tree f) ((on_menu-Sound world tree) f keep)

  handle-MayQuit : (k : Key) → MayQuit (handle world tree k)
  unfolding handle
  handle-MayQuit (key_resize rows cols) =
      go_on-MayQuit (modify (resize rows cols))
        (λ s ks v. (resize-IsSound rows cols s v, omega arith))
  handle-MayQuit (char c) = handle_char-MayQuit c
  handle-MayQuit key_down = go_on_menu-MayQuit select_next_menu_entry next-KeepsView
  handle-MayQuit key_up = go_on_menu-MayQuit select_prev_menu_entry prev-KeepsView
  handle-MayQuit key_npage = go_on_menu-MayQuit page_down page_down-KeepsView
  handle-MayQuit key_ppage = go_on_menu-MayQuit page_up page_up-KeepsView
  handle-MayQuit key_end = go_on_menu-MayQuit select_last_menu_entry last-KeepsView
  handle-MayQuit key_home = go_on_menu-MayQuit select_first_menu_entry first-KeepsView
  handle-MayQuit key_right =
      go_on-MayQuit (enter_or_change world tree) (enter_or_change-Sound world tree)
  handle-MayQuit key_left = leave-MayQuit
  handle-MayQuit key_backspace = leave-MayQuit
  handle-MayQuit _ = λ s ks v. (v, omega arith, tt)

  -- The end of the program: a sound interface, with the values in a file unless the user refused.
  abbrev pub Ends : Exit → Session → List Key → Type 0
  Ends e s ks = IsSound s × Kept (some e) s

  ended-Ends :
      (r : Option Exit) (again : Ui Exit) (s : Session) (ks : List Key)
      → Kept r s
      → IsSound s
      → Post Ends (again s ks)
      → Post Ends (ended world tree again r s ks)
  unfolding ended
  ended-Ends (some e) again s ks kept v h = (v, kept)
  ended-Ends none again s ks kept v h = h

  menuconfig_loop-Ends :
      (fuel : ℕ) (s : Session) (ks : List Key)
      → IsSound s
      → length ks < fuel
      → Post Ends (menuconfig_loop world tree fuel s ks)
  unfolding menuconfig_loop
  menuconfig_loop-Ends zero s ks v enough = absurd (omega arith)
  menuconfig_loop-Ends (suc fuel) s [] v enough = tt
  menuconfig_loop-Ends (suc fuel) s (k ∷ ks) v enough =
      Post-bind (Quits (length ks)) Ends (handle world tree k)
        (ended world tree (menuconfig_loop world tree fuel)) s ks (handle-MayQuit k s ks v)
        (λ r s' ks' h.
          ended-Ends r (menuconfig_loop world tree fuel) s' ks' h.2 h.0
            (menuconfig_loop-Ends fuel s' ks' h.0 (omega arith)))

  -- For every sequence of keys, from a sound interface: the program never runs out of fuel, and if
  -- it ends, the interface is sound and the values are those of the file, unless the user answered
  -- that they shall not be saved.
  pub menuconfig-Ends :
      (s : Session) (ks : List Key) → IsSound s → Post Ends (menuconfig world tree s ks)
  unfolding menuconfig
  menuconfig-Ends s ks v = menuconfig_loop-Ends (suc (length ks)) s ks v (omega arith)
