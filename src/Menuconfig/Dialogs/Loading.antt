-- ===== src/Menuconfig/Dialogs/Loading.antt =====
-- The part of `_load_dialog()` after a file could be read (menuconfig.py).
use ve_root.Base.{
  ◌∙◌, ◌≡◌, refl, Bool, true, some, List, get_elem?, Bool-cases, inl, inr, if◌then◌else◌,
}
use ve_root.Menuconfig.Nodes.{MenuNode, Tree, Conf, Text}
use ve_root.Menuconfig.Keys.{Key}
use ve_root.Menuconfig.Shown.{shown_nodes}
use ve_root.Menuconfig.State.{State}
use ve_root.Menuconfig.State.InView.{InView}
use ve_root.Menuconfig.Navigate.{is_in, index, keep_row, update_menu}
use ve_root.Menuconfig.Navigate.Index.{is_in-index}
use ve_root.Menuconfig.Navigate.Frame.{update_menu-Keeps}
use ve_root.Menuconfig.Navigate.Current.{IsCurrent}
use ve_root.Menuconfig.Values.{selected_node, needs_save}
use ve_root.Menuconfig.Values.Sound.{selected_node_at}
use ve_root.Menuconfig.Session.{World, Session, returns, ◌>>=◌, modify, try_ui}
use ve_root.Menuconfig.Session.Post.{bind-returns, try_ui-returns}
use ve_root.Menuconfig.Dialogs.{take_conf, reveal, loaded}

module _ (world : World) (tree : Tree) where
  -- The interface after the values of a file were taken, `n` being the node that was selected.
  pub record IsLoaded (s : Session) (n : MenuNode) (conf : Conf) (filename : Text) (s' : Session)
      : Type 0 where
    pub values : s'.conf ≡ conf
    pub filename_kept : s'.conf_filename ≡ filename
    pub changed : s'.conf_changed ≡ needs_save world tree conf
    pub in_view : InView s'.ui
    pub current : IsCurrent tree s'.ui
    pub selected : index n.id s'.shown ≡ some s'.sel_node_i
    pub revealed :
        s'.show_all
        ≡ (if is_in n.id (shown_nodes tree conf s.show_all s.cur_menu) then s.show_all else true)

  -- The mode that `_load_dialog()` leaves.
  mode : Conf → MenuNode → Session → Bool
  mode conf n s =
      if is_in n.id (shown_nodes tree conf s.show_all s.cur_menu) then s.show_all else true

  mode-shows :
      (conf : Conf) (n : MenuNode) (s : Session)
      → is_in n.id (shown_nodes tree conf true s.cur_menu) ≡ true
      → is_in n.id (shown_nodes tree conf (mode conf n s) s.cur_menu) ≡ true
  unfolding mode
  mode-shows conf n s there =
      elim (Bool-cases (is_in n.id (shown_nodes tree conf s.show_all s.cur_menu))) [
        | inl e ↦ rw (mode, e) e
        | inr e ↦ rw (mode, e) there
      ]

  -- If the selected entry is drawn, and its node is among the entries of the menu in show-all mode
  -- with the new values: taking over the values of a file succeeds; the interface then has these
  -- values and the name of the file, counts as changed exactly if the values need to be saved,
  -- draws the selected entry, which is the same node, in a list that is up to date, and is in
  -- show-all mode exactly if it was before or if the node would not be shown otherwise.
  pub loaded_lem :
      (conf : Conf) (filename : Text) (n : MenuNode) (s : Session) (ks : List Key)
      → InView s.ui
      → get_elem? s.shown s.sel_node_i ≡ some n
      → is_in n.id (shown_nodes tree conf true s.cur_menu) ≡ true
      → (s' : Session) × (loaded world tree conf filename s ks ≡ returns tt s' ks)
        × IsLoaded s n conf filename s'
  unfolding loaded take_conf reveal update_menu mode
  loaded_lem conf filename n s ks v h there =
      let s₁ = take_conf world tree conf filename s in
      let s₂ = reveal world tree n s₁ in
      let (k, found) =
        is_in-index n.id (shown_nodes tree conf (mode conf n s) s.cur_menu)
          (mode-shows conf n s there) in
      let t : State = record s₂.ui {
        shown = shown_nodes tree conf (mode conf n s) s.cur_menu;
        sel_node_i = k;
        menu_scroll = keep_row tree s₂.ui k;
      } in
      let updates : update_menu tree s₂.ui ≡ some t = rw (h, found) refl in
      let v₂ : InView s₂.ui = record {
        selected = v.selected;
        not_above = v.not_above;
        not_below = v.not_below;
      } in
      (
        record s₂ { ui = t },
        bind-returns selected_node
              (λ n'. modify (reveal world tree n') >>= λ _. try_ui (update_menu tree)) s₁ s₁ ks ks n
              (selected_node_at s₁ ks h)
            ∙ try_ui-returns (update_menu tree) s₂ ks updates,
        record {
          values = refl;
          filename_kept = refl;
          changed = refl;
          in_view = (update_menu-Keeps tree s₂.ui v₂ t updates).0;
          current = refl;
          selected = found;
          revealed = refl;
        },
      )
