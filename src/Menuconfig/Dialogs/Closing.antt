-- ===== src/Menuconfig/Dialogs/Closing.antt =====
-- `_quit_dialog()`, `_load_dialog()` and `_save_dialog()` (menuconfig.py).
use ve_root.Base.{
  ℕ, zero, suc, ◌≤◌, ◌<◌, ◌≡◌, refl, Option, none, some, List, [], ◌∷◌, length, arith, Bool-cases,
  inl, inr, ◌==◌,
}
use ve_root.Menuconfig.Nodes.{Tree}
use ve_root.Menuconfig.Keys.{Key}
use ve_root.Menuconfig.Session.{World, Session, Ui}
use ve_root.Menuconfig.Session.Post.{Post, Post-bind, IsSound, Reads}
use ve_root.Menuconfig.Dialogs.{
  key_dialog, msg, Exit, no_changes, saved, not_saved, quit_key, quit_loop, quit_dialog,
}
use ve_root.Menuconfig.Dialogs.Sound.{key_dialog-Reads, msg-Reads}

-- The program ends with the values in a file, unless the user refused that.
abbrev pub Kept : Option Exit → Session → Type 0
Kept (some not_saved) s = Unit
Kept (some no_changes) s = s.conf ≡ s.on_disk
Kept (some saved) s = s.conf ≡ s.on_disk
Kept none s = Unit

abbrev pub Quits : ℕ → Option Exit → Session → List Key → Type 0
Quits n r s ks = IsSound s × (length ks ≤ n) × Kept r s

module _ (world : World) (tree : Tree) where
  quit_key-Quits :
      (c : Option ℕ) (again : Ui (Option Exit)) (n : ℕ) (s : Session) (ks : List Key)
      → IsSound s
      → length ks ≤ n
      → ((s' : Session) (ks' : List Key)
          → IsSound s'
          → length ks' ≤ length ks
          → Post (Quits n) (again s' ks'))
      → Post (Quits n) (quit_key world tree c again s ks)
  unfolding quit_key
  quit_key-Quits none again n s ks v le rec = (v, le, tt)
  quit_key-Quits (some c) again n s ks v le rec = elim (Bool-cases (c == b'c')) [
    | inl e ↦ rw e (v, le, tt)
    | inr e ↦ elim (Bool-cases (c == b'y')) [
      | inl e' ↦ elim (Bool-cases (world.write_config s.conf s.conf_filename)) [
        | inl e'' ↦ rw (e, e', e'') (record { in_view = v.in_view; saved = λ _. refl }, le, refl)
        | inr e'' ↦
            rw (e, e', e'')
              (Post-bind (Reads (length ks) {A = Option ℕ}) (Quits n) msg (λ _. again) s ks
                (msg-Reads s ks v) (λ a s' ks' h. rec s' ks' h.0 (omega arith)))
      ]
      | inr e' ↦ elim (Bool-cases (c == b'n')) [
        | inl e'' ↦ rw (e, e', e'') (v, le, tt)
        | inr e'' ↦ rw (e, e', e'') (rec s ks v (omega arith))
      ]
    ]
  ]

  quit_loop-Quits :
      (fuel n : ℕ) (s : Session) (ks : List Key)
      → IsSound s
      → length ks < fuel
      → length ks ≤ n
      → Post (Quits n) (quit_loop world tree fuel s ks)
  unfolding quit_loop
  quit_loop-Quits zero n s ks v enough le = absurd (omega arith)
  quit_loop-Quits (suc fuel) n s ks v enough le =
      Post-bind (Reads (length ks) {A = Option ℕ}) (Quits n)
        (key_dialog (b'y' ∷ (b'n' ∷ (b'c' ∷ []))))
        (λ c. quit_key world tree c (quit_loop world tree fuel)) s ks
        (key_dialog-Reads (b'y' ∷ (b'n' ∷ (b'c' ∷ []))) s ks v)
        (λ c s' ks' h.
          quit_key-Quits c (quit_loop world tree fuel) n s' ks' h.0 (omega arith)
            (λ s'' ks'' v'' le''. quit_loop-Quits fuel n s'' ks'' v'' (omega arith) (omega arith)))

  -- However the quit dialog is answered: if the program ends with "no changes" or "saved", the
  -- values are those of the file; and the dialog never runs out of fuel.
  pub quit_dialog-Quits :
      (s : Session) (ks : List Key)
      → IsSound s
      → Post (Quits (length ks)) (quit_dialog world tree s ks)
  unfolding quit_dialog
  quit_dialog-Quits s ks v = elim (Bool-cases s.conf_changed) [
    | inl e ↦
        simp e (quit_loop-Quits (suc (length ks)) (length ks) s ks v (omega arith) (omega arith))
    | inr e ↦ simp e (v, omega arith, v.saved e)
  ]
