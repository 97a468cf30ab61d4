-- ===== src/Menuconfig/Tests/Moving.antt =====
-- Instances of the theorems on menus (menuconfig.py).
use mathlib.Core.List.{Sublistᴰ}
use ve_root.Base.{none, false, ◌≡◌, refl, inl, min, ◌-◌, some, true, false, arith, Ensures}
use ve_root.Menuconfig.Shown.{shown_nodes}
use ve_root.Menuconfig.Shown.ShowAll.{shown_nodes-show_all}
use ve_root.Menuconfig.State.{State, select_next_menu_entry, select_prev_menu_entry}
use ve_root.Menuconfig.State.InView.{InView, HasMargin, arrow_keys-HasMargin}
use ve_root.Menuconfig.Navigate.{
  enter_menu, leave_menu, toggle_show_all, update_menu, jump_to, jumps_into, parent_menu, index,
  is_in,
}
use ve_root.Menuconfig.Navigate.Return.{IsEntry, leave-enter}
use ve_root.Menuconfig.Navigate.Current.{IsCurrent, toggle-IsCurrent, update_menu_lem}
use ve_root.Menuconfig.Navigate.Jump.{jump_to-InView, jump_to_parent, LandsAt}
use ve_root.Menuconfig.Tests.{sample_tree, sample_conf, start, sub_menu, baz}

start-InView : InView start
start-InView = record { selected = omega arith; not_above = omega arith; not_below = omega arith }

start-IsCurrent : IsCurrent sample_tree start
unfolding shown_nodes
start-IsCurrent = refl

shown_nodes-show_all_example :
    Sublistᴰ
      (shown_nodes sample_tree sample_conf false sub_menu)
      (shown_nodes sample_tree sample_conf true sub_menu)
shown_nodes-show_all_example = shown_nodes-show_all sample_conf sample_tree sub_menu refl

sub_menu-IsEntry : IsEntry sample_tree sub_menu start
unfolding parent_menu
sub_menu-IsEntry = record { selected = refl; is_menu = refl; not_top = omega arith; parent = refl }

sub_menu_entered : (enter_menu sample_tree sub_menu start).1 ≡ true
unfolding enter_menu shown_nodes
sub_menu_entered = refl

leave-enter_example : leave_menu sample_tree (enter_menu sample_tree sub_menu start).0 ≡ some start
leave-enter_example =
    leave-enter sample_tree sub_menu start start-InView start-IsCurrent (omega arith)
      sub_menu-IsEntry sub_menu_entered

toggle-IsCurrent_example : IsCurrent sample_tree (toggle_show_all sample_tree start)
toggle-IsCurrent_example = toggle-IsCurrent sample_tree start start-InView refl start-IsCurrent

jump_to-InView_example : Ensures InView (jump_to sample_tree baz start)
jump_to-InView_example = jump_to-InView sample_tree baz start start-InView

parent_menu_baz : parent_menu sample_tree 4 ≡ some sub_menu
unfolding parent_menu
parent_menu_baz = refl

baz_shown : is_in 4 (shown_nodes sample_tree sample_conf true sub_menu) ≡ true
unfolding is_in shown_nodes
baz_shown = refl

baz_not_entered : jumps_into baz baz.list ≡ false
unfolding jumps_into
baz_not_entered = refl

jump_to_parent_example :
    (t : State) × LandsAt sample_tree baz sub_menu start baz_not_entered parent_menu_baz baz_shown t
jump_to_parent_example =
    jump_to_parent sample_tree baz sub_menu start baz_not_entered parent_menu_baz baz_shown

start-HasMargin : HasMargin (record start { height = 12 })
start-HasMargin = record { above = inl refl; below = inl (omega arith) }

arrow_keys-HasMargin_example :
    HasMargin (select_next_menu_entry (record start { height = 12 }))
    × HasMargin (select_prev_menu_entry (record start { height = 12 }))
arrow_keys-HasMargin_example =
    arrow_keys-HasMargin (record start { height = 12 }) (omega arith) start-HasMargin

update_menu_lem_example :
    (is_in 2 (shown_nodes sample_tree sample_conf start.show_all start.cur_menu) ≡ true
      → (t : State) × (update_menu sample_tree start ≡ some t)
        × IsCurrent sample_tree t
        × (index 2 t.shown ≡ some t.sel_node_i)
        × (t.sel_node_i - t.menu_scroll ≡ min t.sel_node_i (start.sel_node_i - start.menu_scroll)))
    × (is_in 2 (shown_nodes sample_tree sample_conf start.show_all start.cur_menu) ≡ false
        → update_menu sample_tree start ≡ none)
update_menu_lem_example = update_menu_lem sample_tree start start-InView refl
