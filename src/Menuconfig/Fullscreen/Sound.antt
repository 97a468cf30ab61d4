-- ===== src/Menuconfig/Fullscreen/Sound.antt =====
-- The soundness of the interface across the fullscreen dialogs of menuconfig.py.
use ve_root.Base.{
  ℕ, zero, suc, ◌≤◌, ◌<◌, Bool, true, false, Option, none, some, List, [], ◌∷◌, length, arith,
  Bool-cases, inl, inr, ltb,
}
use ve_root.Menuconfig.Nodes.{MenuNode, Tree}
use ve_root.Menuconfig.Keys.{Key}
use ve_root.Menuconfig.Navigate.{jump_to}
use ve_root.Menuconfig.Navigate.Frame.{jump_to-Keeps}
use ve_root.Menuconfig.Search.{
  Search, SearchStep, goes_on, resized, accepts, cancels, looks, open_search, resize_matches,
  search_key, at,
}
use ve_root.Menuconfig.Search.Row.{HasRow, StepHasRow, search_key-HasRow, open_search-HasRow}
use ve_root.Menuconfig.Session.{World, Session, Ui, pure, try_ui}
use ve_root.Menuconfig.Session.Post.{Post, Post-bind, IsSound, Sound, Sound-try_ui, Post-Sound}
use ve_root.Menuconfig.Fullscreen.{
  new_size, text_win_height, InfoStep, scrolls, resizes, slash, leaves, info_key, info_loop,
  info_with, info_from_jump, after_search, info_step, accept, accept_at, look, look_at, look_back,
  search_step, jump_loop, jump_to_dialog, info_dialog,
}

pub new_size-IsSound : (rows cols : ℕ) (s : Session) → IsSound s → IsSound (new_size rows cols s)
new_size-IsSound rows cols s v = record { in_view = v.in_view; saved = v.saved }

-- An operation that keeps the interface sound.
abbrev pub IsSafe : {A : Type 0} → Ui A → Type 0
IsSafe {A} m = (s : Session) (ks : List Key) → IsSound s → Post (Sound (length ks) {A = A}) (m s ks)

module _ (world : World) (tree : Tree) where
  -- The rest of a dialog is safe on at most `k` keys.
  abbrev InfoRest : (ℕ → ℕ → Ui (Unit {0})) → ℕ → ℕ → Type 0
  InfoRest again n k =
      (height scroll : ℕ) (s : Session) (ks : List Key)
      → IsSound s
      → length ks ≤ k
      → Post (Sound n {A = Unit {0}}) (again height scroll s ks)

  after_search-Sound :
      (again : ℕ → ℕ → Ui (Unit {0})) (scroll n k : ℕ)
      → InfoRest again n k
      → k ≤ n
      → (jumped : Bool) (s : Session) (ks : List Key) → IsSound s × (length ks ≤ k)
      → Post (Sound n {A = Unit {0}}) (after_search world tree again scroll jumped s ks)
  unfolding after_search
  after_search-Sound again scroll n k rec le true s ks h = (h.0, omega arith)
  after_search-Sound again scroll n k rec le false s ks h =
      rec (text_win_height s.rows) scroll s ks h.0 h.1

  info_step-Sound :
      (search : Ui Bool)
      → IsSafe search
      → (again : ℕ → ℕ → Ui (Unit {0})) (height scroll n : ℕ) (o : InfoStep) (s : Session)
        (ks : List Key)
      → IsSound s
      → length ks ≤ n
      → InfoRest again n (length ks)
      → Post (Sound n {A = Unit {0}}) (info_step world tree search again height scroll o s ks)
  unfolding info_step
  info_step-Sound search safe again height scroll n (scrolls scroll') s ks v le rec =
      rec height scroll' s ks v (omega arith)
  info_step-Sound search safe again height scroll n (resizes rows cols) s ks v le rec =
      rec (text_win_height rows) scroll (new_size rows cols s) ks (new_size-IsSound rows cols s v)
        (omega arith)
  info_step-Sound search safe again height scroll n leaves s ks v le rec = (v, le)
  info_step-Sound search safe again height scroll n slash s ks v le rec =
      Post-bind (Sound (length ks) {A = Bool}) (Sound n {A = Unit {0}}) search
        (after_search world tree again scroll) s ks (safe s ks v)
        (after_search-Sound again scroll n (length ks) rec le)

  info_loop-Sound :
      (search : Ui Bool)
      → IsSafe search
      → (fuel lines height scroll n : ℕ) (s : Session) (ks : List Key) → IsSound s
      → length ks < fuel
      → length ks ≤ n
      → Post (Sound n {A = Unit {0}}) (info_loop world tree search fuel lines height scroll s ks)
  unfolding info_loop
  info_loop-Sound search safe zero lines height scroll n s ks v enough le = absurd (omega arith)
  info_loop-Sound search safe (suc fuel) lines height scroll n s [] v enough le = tt
  info_loop-Sound search safe (suc fuel) lines height scroll n s (k ∷ ks) v enough le =
      info_step-Sound search safe (info_loop world tree search fuel lines) height scroll n
        (info_key world.erase_char lines height scroll k) s ks v (omega arith)
        (λ height' scroll' s' ks' v' le'.
          info_loop-Sound search safe fuel lines height' scroll' n s' ks' v' (omega arith)
            (omega arith))

  info_with-Sound :
      (search : Ui Bool) → IsSafe search → (m : MenuNode) → IsSafe (info_with world tree search m)
  unfolding info_with
  info_with-Sound search safe m s ks v =
      info_loop-Sound search safe (suc (length ks)) (world.info_lines s.conf m)
        (text_win_height s.rows) 0 (length ks) s ks v (omega arith) (omega arith)

  info_from_jump-Sound : (m : MenuNode) → IsSafe (info_from_jump world tree m)
  unfolding info_from_jump
  info_from_jump-Sound m = info_with-Sound (pure true) (λ s ks v. (v, omega arith)) m

  accept_at-Sound : (o : Option MenuNode) → IsSafe (accept_at world tree o)
  unfolding accept_at
  accept_at-Sound none s ks v = tt
  accept_at-Sound (some m) s ks v =
      Post-bind (Sound (length ks) {A = Unit {0}}) (Sound (length ks) {A = Bool})
        (try_ui (jump_to tree m)) (λ _. pure true) s ks
        (Sound-try_ui (jump_to tree m) s ks v (jump_to-Keeps tree m s.ui v.in_view))
        (λ _ s' ks' h. h)

  look_at-Sound : (o : Option MenuNode) → IsSafe (look_at world tree o)
  unfolding look_at
  look_at-Sound none s ks v = tt
  look_at-Sound (some m) s ks v = info_from_jump-Sound m s ks v

  abbrev SearchRest : (Search → Ui Bool) → ℕ → ℕ → Type 0
  SearchRest again n k =
      (b : Search) (s : Session) (ks : List Key)
      → HasRow b
      → IsSound s
      → length ks ≤ k
      → Post (Sound n {A = Bool}) (again b s ks)

  search_step-Sound :
      (again : Search → Ui Bool) (b : Search) (n : ℕ) (o : SearchStep) (s : Session) (ks : List Key)
      → HasRow b
      → StepHasRow b o
      → IsSound s
      → length ks ≤ n
      → SearchRest again n (length ks)
      → Post (Sound n {A = Bool}) (search_step world tree again b o s ks)
  unfolding search_step look_back accept look
  search_step-Sound again b n (goes_on b') s ks r r' v le rec = rec b' s ks r' v (omega arith)
  search_step-Sound again b n (resized rows cols) s ks r r' v le rec =
      rec (resize_matches rows b) (new_size rows cols s) ks r' (new_size-IsSound rows cols s v)
        (omega arith)
  search_step-Sound again b n cancels s ks r r' v le rec = (v, le)
  search_step-Sound again b n accepts s ks r r' v le rec =
      elim (Bool-cases (ltb 0 (length b.matches))) [
        | inl e ↦ simp e (
            Post-Sound (length ks) n (accept_at world tree (at b.matches b.sel_node_i) s ks) le
              (accept_at-Sound (at b.matches b.sel_node_i) s ks v))
        | inr e ↦ simp e (rec b s ks r v (omega arith))
      ]
  search_step-Sound again b n looks s ks r r' v le rec =
      elim (Bool-cases (ltb 0 (length b.matches))) [
        | inl e ↦ simp e (
            Post-bind (Sound (length ks) {A = Unit {0}}) (Sound n {A = Bool})
              (look_at world tree (at b.matches b.sel_node_i)) _ s ks
              (look_at-Sound (at b.matches b.sel_node_i) s ks v)
              (λ _ s' ks' h. rec (resize_matches s'.rows b) s' ks' (r'.1 s'.rows) h.0 h.1))
        | inr e ↦ simp e (rec b s ks r v (omega arith))
      ]

  jump_loop-Sound :
      (fuel : ℕ) (b : Search) (n : ℕ) (s : Session) (ks : List Key)
      → HasRow b
      → IsSound s
      → length ks < fuel
      → length ks ≤ n
      → Post (Sound n {A = Bool}) (jump_loop world tree fuel b s ks)
  unfolding jump_loop
  jump_loop-Sound zero b n s ks r v enough le = absurd (omega arith)
  jump_loop-Sound (suc fuel) b n s [] r v enough le = tt
  jump_loop-Sound (suc fuel) b n s (k ∷ ks) r v enough le =
      search_step-Sound (jump_loop world tree fuel) b n (search_key world k s.cols b) s ks r
        (search_key-HasRow world k s.cols b r) v (omega arith)
        (λ b' s' ks' r' v' le'. jump_loop-Sound fuel b' n s' ks' r' v' (omega arith) (omega arith))

  pub jump_to_dialog-Sound : IsSafe (jump_to_dialog world tree)
  unfolding jump_to_dialog
  jump_to_dialog-Sound s ks v =
      jump_loop-Sound (suc (length ks)) (open_search world s.rows) (length ks) s ks
        (open_search-HasRow world s.rows) v (omega arith) (omega arith)

  pub info_dialog-Sound : (m : MenuNode) → IsSafe (info_dialog world tree m)
  unfolding info_dialog
  info_dialog-Sound m = info_with-Sound (jump_to_dialog world tree) jump_to_dialog-Sound m
