-- ===== src/Menuconfig/Dialogs/Sound.antt =====
-- The soundness of the interface across the dialogs, and their fuel (menuconfig.py).
use ve_root.Base.{
  ℕ, ◌≡◌, refl, ◌∙◌, Option, List, [], ◌∷◌, length, arith, Bool-cases, inl, inr, ◌==◌,
}
use ve_root.Menuconfig.Nodes.{Conf, Text}
use ve_root.Menuconfig.Keys.{Key, char, key_resize}
use ve_root.Menuconfig.Edit.{EditBox}
use ve_root.Menuconfig.State.{resize_main}
use ve_root.Menuconfig.State.InView.{resize_main-InView}
use ve_root.Menuconfig.Values.{is_in_values}
use ve_root.Menuconfig.Session.{World, Session, returns, resize}
use ve_root.Menuconfig.Session.Post.{Post, IsSound, Reads, Post-Reads}
use ve_root.Menuconfig.Dialogs.{
  key_step, Step, lower, escape, newline, input_char, key_dialog, msg, stay, close, Input, goes_on,
  ends, input_step, input_loop, input_dialog,
}

pub resize-IsSound : (r c : ℕ) (s : Session) → IsSound s → IsSound (resize r c s)
unfolding resize_main
resize-IsSound r c s v = record { in_view = resize_main-InView r s.ui v.in_view; saved = v.saved }

abbrev StepSound : {B : Type 0} → Step B → Type 0
StepSound (stay s) = IsSound s
StepSound (close r) = Unit

key_step-Sound : (keys : List ℕ) (k : Key) (s : Session) → IsSound s → StepSound (key_step keys k s)
unfolding key_step
key_step-Sound keys (key_resize r c) s v = resize-IsSound r c s v
key_step-Sound keys (char c) s v = elim (Bool-cases (c == escape)) [
  | inl e ↦ rw e tt
  | inr e ↦ elim (Bool-cases (is_in_values (lower c) keys)) [
    | inl e' ↦ rw (e, e') tt
    | inr e' ↦ rw (e, e') v
  ]
]
key_step-Sound keys _ s v = v

pub key_dialog-Reads :
    (keys : List ℕ) (s : Session) (ks : List Key)
    → IsSound s
    → Post (Reads (length ks) {A = Option ℕ}) (key_dialog keys s ks)
unfolding key_dialog
key_dialog-Reads keys s [] v = tt
key_dialog-Reads keys s (k ∷ ks) v =
    go (key_step keys k s) (key_step-Sound keys k s v) (λ s' v'. key_dialog-Reads keys s' ks v')
  where
    go :
        (o : Step (Option ℕ))
        → StepSound o
        → ((s' : Session)
            → IsSound s'
            → Post (Reads (length ks) {A = Option ℕ}) (key_dialog keys s' ks))
        → Post
            (Reads (length (k ∷ ks)) {A = Option ℕ})
            (elim o [ stay s' ↦ key_dialog keys s' ks | close r ↦ returns r s ks ])
    go (stay s') h rec =
        Post-Reads (length ks) (length (k ∷ ks)) (key_dialog keys s' ks) (omega arith) (rec s' h)
    go (close r) h rec = (v, omega arith)

pub msg-Reads :
    (s : Session) (ks : List Key) → IsSound s → Post (Reads (length ks) {A = Option ℕ}) (msg s ks)
unfolding msg
msg-Reads s ks v = key_dialog-Reads (b' ' ∷ (newline ∷ [])) s ks v

module _ (world : World) where
  abbrev InputSound : Input world → Type 0
  InputSound (goes_on s b) = IsSound s
  InputSound (ends r) = Unit

  input_char-Sound :
      (needed c : ℕ) (s : Session) (b : EditBox)
      → IsSound s
      → InputSound (input_char world needed c s b)
  unfolding input_char
  input_char-Sound needed c s b v = elim (Bool-cases (c == newline)) [
    | inl e ↦ rw e tt
    | inr e ↦ elim (Bool-cases (c == escape)) [
      | inl e' ↦ rw (e, e') tt
      | inr e' ↦ elim (Bool-cases (c == 0)) [
        | inl e'' ↦ rw (e, e', e'') v
        | inr e'' ↦ rw (e, e', e'') v
      ]
    ]
  ]

  input_step-Sound :
      (needed : ℕ) (k : Key) (s : Session) (b : EditBox)
      → IsSound s
      → InputSound (input_step world needed k s b)
  unfolding input_step
  input_step-Sound needed (key_resize r c) s b v = resize-IsSound r c s v
  input_step-Sound needed (char c) s b v = input_char-Sound needed c s b v
  input_step-Sound needed _ s b v = v

  input_loop-Reads :
      (needed : ℕ) (b : EditBox) (s : Session) (ks : List Key)
      → IsSound s
      → Post (Reads (length ks) {A = Option Text}) (input_loop world needed b s ks)
  unfolding input_loop
  input_loop-Reads needed b s [] v = tt
  input_loop-Reads needed b s (k ∷ ks) v =
      go (input_step world needed k s b) (input_step-Sound needed k s b v)
        (λ s' b' v'. input_loop-Reads needed b' s' ks v')
    where
      go :
          (o : Input world)
          → InputSound o
          → ((s' : Session) (b' : EditBox)
              → IsSound s'
              → Post (Reads (length ks) {A = Option Text}) (input_loop world needed b' s' ks))
          → Post (Reads (length (k ∷ ks)) {A = Option Text}) (elim o [
            | goes_on s' b' ↦ input_loop world needed b' s' ks
            | ends r ↦ returns r s ks
          ])
      go (goes_on s' b') h rec =
          Post-Reads (length ks) (length (k ∷ ks)) (input_loop world needed b' s' ks) (omega arith)
            (rec s' b' h)
      go (ends r) h rec = (v, omega arith)

  pub input_dialog-Reads :
      (needed : ℕ) (initial : Text) (s : Session) (ks : List Key)
      → IsSound s
      → Post (Reads (length ks) {A = Option Text}) (input_dialog world needed initial s ks)
  unfolding input_dialog
  input_dialog-Reads needed initial s ks v = input_loop-Reads needed _ s ks v

-- A dialog does not change the values.
abbrev pub SameConf : Conf → {A : Type 0} → A → Session → List Key → Type 0
SameConf c a s ks = s.conf ≡ c

abbrev StepConf : Conf → {B : Type 0} → Step B → Type 0
StepConf c (stay s) = s.conf ≡ c
StepConf c (close r) = Unit

key_step-SameConf : (keys : List ℕ) (k : Key) (s : Session) → StepConf s.conf (key_step keys k s)
unfolding key_step resize_main
key_step-SameConf keys (key_resize r c) s = refl
key_step-SameConf keys (char c) s = elim (Bool-cases (c == escape)) [
  | inl e ↦ rw e tt
  | inr e ↦ elim (Bool-cases (is_in_values (lower c) keys)) [
    | inl e' ↦ rw (e, e') tt
    | inr e' ↦ rw (e, e') refl
  ]
]
key_step-SameConf keys _ s = refl

pub key_dialog-SameConf :
    (keys : List ℕ) (c : Conf) (s : Session) (ks : List Key)
    → s.conf ≡ c
    → Post (SameConf c {A = Option ℕ}) (key_dialog keys s ks)
unfolding key_dialog
key_dialog-SameConf keys c s [] e = tt
key_dialog-SameConf keys c s (k ∷ ks) e =
    go (key_step keys k s) (key_step-SameConf keys k s)
      (λ s' e'. key_dialog-SameConf keys c s' ks (e' ∙ e))
  where
    go :
        (o : Step (Option ℕ))
        → StepConf s.conf o
        → ((s' : Session)
            → s'.conf ≡ s.conf
            → Post (SameConf c {A = Option ℕ}) (key_dialog keys s' ks))
        → Post
            (SameConf c {A = Option ℕ})
            (elim o [ stay s' ↦ key_dialog keys s' ks | close r ↦ returns r s ks ])
    go (stay s') h rec = rec s' h
    go (close r) h rec = e

pub msg-SameConf :
    (c : Conf) (s : Session) (ks : List Key)
    → s.conf ≡ c
    → Post (SameConf c {A = Option ℕ}) (msg s ks)
unfolding msg
msg-SameConf c s ks e = key_dialog-SameConf (b' ' ∷ (newline ∷ [])) c s ks e
