-- ===== src/Kconfig/Quiet.antt =====
-- Runs of scripts/kconfig/kconfig.py that write no file but the null device.
use ve_root.Base.{
  Every, Every-append, ◌≡◌, Bool, true, false, Option, none, some, List, [], ◌∷◌, if◌then◌else◌,
}
use ve_root.Kconfig.{
  Kconfiglib, Event, writes_config, writes_header, writes_list, Run, returns, exits, raises, ◌>>=◌,
  after, call,
}
use ve_root.Kconfig.Checks.{for_each}

module _ {Expr Kconf : Type 0} (lib : Kconfiglib Expr Kconf) where
  -- No file but the null device is written.
  abbrev pub IsQuiet : Event Expr → Type 0
  IsQuiet (writes_config path) = path ≡ lib.devnull
  IsQuiet (writes_header path) = ⊥
  IsQuiet (writes_list path files) = ⊥
  IsQuiet _ = Unit

  -- Nothing is written, however the run ends, and a result has the property.
  abbrev pub QuietRun : {A : Type 0} → (A → Type 0) → Run Expr A → Type 0
  QuietRun P (returns es a) = Every IsQuiet es × P a
  QuietRun P (exits es m) = Every IsQuiet es
  QuietRun P (raises es) = Every IsQuiet es

  pub QuietRun-after :
      {A : Type 0} (P : A → Type 0) (es : List (Event Expr)) (r : Run Expr A)
      → Every IsQuiet es
      → QuietRun P r
      → QuietRun P (after es r)
  QuietRun-after P es (returns fs a) h k = (Every-append IsQuiet es fs h k.0, k.1)
  QuietRun-after P es (exits fs m) h k = Every-append IsQuiet es fs h k
  QuietRun-after P es (raises fs) h k = Every-append IsQuiet es fs h k

  pub QuietRun-bind :
      {A B : Type 0} (P : A → Type 0) (Q : B → Type 0) (m : Run Expr A) (f : A → Run Expr B)
      → QuietRun P m
      → ((a : A) → P a → QuietRun Q (f a))
      → QuietRun Q (m >>= f)
  QuietRun-bind P Q (returns es a) f h k = QuietRun-after Q es (f a) h.0 (k a h.1)
  QuietRun-bind P Q (exits es m) f h k = h
  QuietRun-bind P Q (raises es) f h k = h

  -- The property that every result has.
  abbrev pub Any : {A : Type 0} → A → Type 0
  Any _ = Unit {0}

  pub QuietRun-weaken :
      {A : Type 0} (P Q : A → Type 0) (m : Run Expr A)
      → QuietRun P m
      → ((a : A) → P a → Q a)
      → QuietRun Q m
  QuietRun-weaken P Q (returns es a) h k = (h.0, k a h.1)
  QuietRun-weaken P Q (exits es m) h k = h
  QuietRun-weaken P Q (raises es) h k = h

  pub QuietRun-for_each :
      {A : Type 0} (xs : List A) (f : A → Run Expr (Unit {0}))
      → ((x : A) → QuietRun Any (f x))
      → QuietRun Any (for_each xs f)
  QuietRun-for_each [] f h = (tt, tt)
  QuietRun-for_each (x ∷ xs) f h =
      QuietRun-bind Any Any (f x) (λ _. for_each xs f) (h x) (λ _ _. QuietRun-for_each xs f h)

  pub QuietRun-if :
      {A : Type 0} (P : A → Type 0) (b : Bool) (m n : Run Expr A)
      → QuietRun P m
      → QuietRun P n
      → QuietRun P (if b then m else n)
  QuietRun-if P true m n h k = h
  QuietRun-if P false m n h k = k

  pub QuietRun-call : {A : Type 0} (o : Option A) → QuietRun Any (call o)
  QuietRun-call none = tt
  QuietRun-call (some a) = (tt, tt)

  pub QuietRun-elim :
      {A B : Type 0} (P : A → Type 0) (o : Option B) (m : Run Expr A) (f : B → Run Expr A)
      → QuietRun P m
      → ((b : B) → QuietRun P (f b))
      → QuietRun P (elim o [ none ↦ m | some b ↦ f b ])
  QuietRun-elim P none m f h k = h
  QuietRun-elim P (some b) m f h k = k b
