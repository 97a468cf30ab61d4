-- ===== src/Menuconfig/Session/Post.antt =====
-- What holds when an operation of the interface returns (menuconfig.py).
use ve_root.Base.{
  ap, suc, ℕ, ◌≤◌, ◌<◌, ◌≡◌, refl, false, Option, none, some, List, length, Ensures, arith,
}
use ve_root.Menuconfig.Keys.{Key}
use ve_root.Menuconfig.State.{State}
use ve_root.Menuconfig.State.InView.{InView}
use ve_root.Menuconfig.Navigate.Frame.{Keeps}
use ve_root.Menuconfig.Session.{
  Session, Outcome, waits, raises, exhausted, returns, Ui, ◌>>=◌, try_ui,
}

-- The fuel suffices, and what is returned has the property.
abbrev pub Post {ℓ} : {A : Type ℓ} → (A → Session → List Key → Type 0) → Outcome A → Type 0
Post P waits = Unit
Post P raises = Unit
Post P exhausted = ⊥
Post P (returns a s ks) = P a s ks

module _ {ℓ κ} {A : Type ℓ} {B : Type κ} where
  pub Post-bind :
      (P : A → Session → List Key → Type 0) (Q : B → Session → List Key → Type 0) (m : Ui A)
      (f : A → Ui B) (s : Session) (ks : List Key)
      → Post P (m s ks)
      → ((a : A) (s' : Session) (ks' : List Key) → P a s' ks' → Post Q (f a s' ks'))
      → Post Q ((m >>= f) s ks)
  Post-bind P Q m f s ks h k = go (m s ks) h
    where
      go :
          (o : Outcome A)
          → Post P o
          → Post Q (elim o [
            | waits ↦ waits
            | raises ↦ raises
            | exhausted ↦ exhausted
            | returns a s' ks' ↦ f a s' ks'
          ])
      go waits h = tt
      go raises h = tt
      go exhausted h = h
      go (returns a s' ks') h = k a s' ks' h

-- An operation after one that returns.
pub bind-returns :
    {A B : Type 0} (m : Ui A) (f : A → Ui B) (s s' : Session) (ks ks' : List Key) (a : A)
    → m s ks ≡ returns a s' ks'
    → (m >>= f) s ks ≡ f a s' ks'
bind-returns m f s s' ks ks' a e =
    ap
      (λ o. elim o [
        | waits ↦ waits
        | raises ↦ raises
        | exhausted ↦ exhausted
        | returns b t ls ↦ f b t ls
      ])
      e

pub try_ui-returns :
    (f : State → Option State) (s : Session) (ks : List Key) {t : State}
    → f s.ui ≡ some t
    → try_ui f s ks ≡ returns tt (record s { ui = t }) ks
try_ui-returns f s ks e =
    ap (λ o. elim o [ none ↦ raises | some t ↦ returns tt (record s { ui = t }) ks ]) e

-- The interface is sound: the selected entry is drawn, and with no unsaved change the values are
-- those of the file.
pub record IsSound (s : Session) : Type 0 where
  pub in_view : InView s.ui
  pub saved : s.conf_changed ≡ false → s.conf ≡ s.on_disk

-- The operation leaves a sound interface, and at most `n` keys.
abbrev pub Sound : ℕ → {A : Type 0} → A → Session → List Key → Type 0
Sound n a s ks = IsSound s × (length ks ≤ n)

-- For an operation that reads no key and keeps the values.
pub Sound-try_ui :
    (f : State → Option State) (s : Session) (ks : List Key)
    → IsSound s
    → Ensures (Keeps s.ui) (f s.ui)
    → Post (Sound (length ks) {A = Unit {0}}) (try_ui f s ks)
Sound-try_ui f s ks v h = go (f s.ui) h
  where
    go :
        (o : Option State)
        → Ensures (Keeps s.ui) o
        → Post
            (Sound (length ks) {A = Unit {0}})
            (elim o [ none ↦ raises | some t ↦ returns tt (record s { ui = t }) ks ])
    go none h = tt
    go (some t) h =
        let (inside, same) = h t refl in
        (
          record { in_view = inside; saved = λ e. rw same.conf (v.saved (rw same.changed at e)) },
          omega arith,
        )

-- A weaker property.
pub Post-mono {ℓ} :
    {A : Type ℓ} (P Q : A → Session → List Key → Type 0) (o : Outcome A)
    → ((a : A) (s : Session) (ks : List Key) → P a s ks → Q a s ks)
    → Post P o
    → Post Q o
Post-mono P Q waits k h = tt
Post-mono P Q raises k h = tt
Post-mono P Q exhausted k h = h
Post-mono P Q (returns a s ks) k h = k a s ks h

-- A dialog reads at least one key.
abbrev pub Reads : ℕ → {A : Type 0} → A → Session → List Key → Type 0
Reads n a s ks = IsSound s × (length ks < n)

pub Post-Reads :
    {A : Type 0} (n m : ℕ) (o : Outcome A)
    → n ≤ m
    → Post (Reads n {A = A}) o
    → Post (Reads m {A = A}) o
Post-Reads {A} n m o le =
    Post-mono (Reads n {A = A}) (Reads m {A = A}) o λ a s ks h. (h.0, omega arith)

pub Post-Sound :
    {A : Type 0} (n m : ℕ) (o : Outcome A)
    → n ≤ m
    → Post (Sound n {A = A}) o
    → Post (Sound m {A = A}) o
Post-Sound {A} n m o le =
    Post-mono (Sound n {A = A}) (Sound m {A = A}) o λ a s ks h. (h.0, omega arith)

pub Post-Sound_of_Reads :
    {A : Type 0} (n m : ℕ) (o : Outcome A)
    → n ≤ suc m
    → Post (Reads n {A = A}) o
    → Post (Sound m {A = A}) o
Post-Sound_of_Reads {A} n m o le =
    Post-mono (Reads n {A = A}) (Sound m {A = A}) o λ a s ks h. (h.0, omega arith)

pub Post-both {ℓ} :
    {A : Type ℓ} (P Q : A → Session → List Key → Type 0) (o : Outcome A)
    → Post P o
    → Post Q o
    → Post (λ a s ks. P a s ks × Q a s ks) o
Post-both P Q waits h k = tt
Post-both P Q raises h k = tt
Post-both P Q exhausted h k = h
Post-both P Q (returns a s ks) h k = (h, k)
