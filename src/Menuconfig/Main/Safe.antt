-- ===== src/Menuconfig/Main/Safe.antt =====
-- The operations behind the keys of the main display and the soundness of the interface
-- (menuconfig.py).
use ve_root.Base.{Bool, true, false, length, arith, if◌then◌else◌}
use ve_root.Menuconfig.Nodes.{MenuNode, Tree}
use ve_root.Menuconfig.State.{State}
use ve_root.Menuconfig.State.InView.{InView}
use ve_root.Menuconfig.Navigate.{enter_menu}
use ve_root.Menuconfig.Navigate.Keep.{enter_menu-InView}
use ve_root.Menuconfig.Navigate.Frame.{Keeps, enter_menu-SameValues}
use ve_root.Menuconfig.Session.{World, Session, Ui, ◌>>=◌, pure}
use ve_root.Menuconfig.Session.Post.{Post-bind, IsSound, Sound, Post-Sound}
use ve_root.Menuconfig.Values.{selected_node}
use ve_root.Menuconfig.Values.Sound.{selected_node-Sound}
use ve_root.Menuconfig.Change.{change_node}
use ve_root.Menuconfig.Change.Sound.{change_node-Sound}
use ve_root.Menuconfig.Dialogs.Sound.{resize-IsSound}
use ve_root.Menuconfig.Fullscreen.{jump_to_dialog, info_dialog}
use ve_root.Menuconfig.Fullscreen.Sound.{IsSafe, jump_to_dialog-Sound, info_dialog-Sound}
use ve_root.Menuconfig.Main.{
  on_menu, enter, toggle_or_enter, enter_or_change, resize_now, jump, inform,
}

-- Two safe operations in a row.
pub IsSafe-bind :
    {A B : Type 0} (m : Ui A) (f : A → Ui B)
    → IsSafe m
    → ((a : A) → IsSafe (f a))
    → IsSafe (m >>= f)
IsSafe-bind {A} {B} m f safe rest s ks v =
    Post-bind (Sound (length ks) {A = A}) (Sound (length ks) {A = B}) m f s ks (safe s ks v)
      (λ a s' ks' h. Post-Sound (length ks') (length ks) (f a s' ks') h.1 (rest a s' ks' h.0))

IsSafe-if : {A : Type 0} (b : Bool) (m n : Ui A) → IsSafe m → IsSafe n → IsSafe (if b then m else n)
IsSafe-if true m n h k = h
IsSafe-if false m n h k = k

IsSafe-pure : {A : Type 0} (a : A) → IsSafe (pure a)
IsSafe-pure a s ks v = (v, omega arith)

-- A change of the menu that keeps the values and the entry in view.
IsSound-ui : (s : Session) (t : State) → IsSound s → Keeps s.ui t → IsSound (record s { ui = t })
IsSound-ui s t v h = record {
  in_view = h.0;
  saved = λ e. rw h.1.conf (v.saved (rw h.1.changed at e));
}

module _ (world : World) (tree : Tree) where
  pub on_menu-Sound :
      (f : State → State) → ((t : State) → InView t → Keeps t (f t)) → IsSafe (on_menu world tree f)
  unfolding on_menu
  on_menu-Sound f keep s ks v = (IsSound-ui s (f s.ui) v (keep s.ui v.in_view), omega arith)

  enter-Sound : (m : MenuNode) → IsSafe (enter world tree m)
  unfolding enter
  enter-Sound m s ks v = (
    IsSound-ui s (enter_menu tree m s.ui).0 v
        (enter_menu-InView tree m s.ui v.in_view, enter_menu-SameValues tree m s.ui),
    omega arith,
  )

  pub toggle_or_enter-Sound : IsSafe (toggle_or_enter world tree)
  unfolding toggle_or_enter
  toggle_or_enter-Sound = IsSafe-bind selected_node _ selected_node-Sound λ n.
      IsSafe-bind (change_node world tree n) _ (change_node-Sound world tree n) λ changed.
        IsSafe-if changed (pure tt) (enter world tree n >>= λ _. pure tt) (IsSafe-pure tt)
          (IsSafe-bind (enter world tree n) (λ _. pure tt) (enter-Sound n) (λ _. IsSafe-pure tt))

  pub enter_or_change-Sound : IsSafe (enter_or_change world tree)
  unfolding enter_or_change
  enter_or_change-Sound = IsSafe-bind selected_node _ selected_node-Sound λ n.
      IsSafe-bind (enter world tree n) _ (enter-Sound n) λ entered.
        IsSafe-if entered (pure tt) (change_node world tree n >>= λ _. pure tt) (IsSafe-pure tt) (
          IsSafe-bind (change_node world tree n) (λ _. pure tt) (change_node-Sound world tree n)
            (λ _. IsSafe-pure tt))

  pub resize_now-Sound : IsSafe (resize_now world tree)
  unfolding resize_now
  resize_now-Sound s ks v =
      let h = resize-IsSound s.rows s.cols s v in
      (record { in_view = h.in_view; saved = h.saved }, omega arith)

  pub jump-Sound : IsSafe (jump world tree)
  unfolding jump
  jump-Sound =
      IsSafe-bind (jump_to_dialog world tree) _ (jump_to_dialog-Sound world tree)
        (λ _. resize_now-Sound)

  pub inform-Sound : IsSafe (inform world tree)
  unfolding inform
  inform-Sound = IsSafe-bind selected_node _ selected_node-Sound λ n.
      IsSafe-bind (info_dialog world tree n) _ (info_dialog-Sound world tree n)
        (λ _. resize_now-Sound)
