-- ===== src/Menuconfig/Main/Keeps.antt =====
-- The moves of the cursor and the values (menuconfig.py).
use ve_root.Base.{ℕ, zero, suc, refl, ◌∙◌, arith}
use ve_root.Menuconfig.State.{
  State, select_next_menu_entry, select_prev_menu_entry, select_last_menu_entry,
  select_first_menu_entry, repeat, page_down, page_up,
}
use ve_root.Menuconfig.State.InView.{
  InView, select_next-InView, select_prev-InView, select_last-InView, select_first-InView,
  page_down-InView, page_up-InView,
}
use ve_root.Menuconfig.Navigate.Frame.{SameValues, Keeps}

-- The selected entry stays in view and the values are the same.
abbrev pub KeepsView : (State → State) → Type 0
KeepsView f = (t : State) → InView t → Keeps t (f t)

repeat-SameValues :
    (f : State → State)
    → ((t : State) → SameValues t (f t))
    → (n : ℕ) (t : State) → SameValues t (repeat n f t)
unfolding repeat
repeat-SameValues f same zero t = record { conf = refl; changed = refl }
repeat-SameValues f same (suc n) t =
    let h = same t in
    let g = repeat-SameValues f same n (f t) in
    record { conf = g.conf ∙ h.conf; changed = g.changed ∙ h.changed }

next-SameValues : (t : State) → SameValues t (select_next_menu_entry t)
unfolding select_next_menu_entry
next-SameValues t = ground arith

prev-SameValues : (t : State) → SameValues t (select_prev_menu_entry t)
unfolding select_prev_menu_entry
prev-SameValues t = ground arith

pub next-KeepsView : KeepsView select_next_menu_entry
next-KeepsView t v = (select_next-InView t v, next-SameValues t)

pub prev-KeepsView : KeepsView select_prev_menu_entry
prev-KeepsView t v = (select_prev-InView t v, prev-SameValues t)

pub last-KeepsView : KeepsView select_last_menu_entry
unfolding select_last_menu_entry
last-KeepsView t v = (select_last-InView t v, record { conf = refl; changed = refl })

pub first-KeepsView : KeepsView select_first_menu_entry
unfolding select_first_menu_entry
first-KeepsView t v = (select_first-InView t v, record { conf = refl; changed = refl })

pub page_down-KeepsView : KeepsView page_down
unfolding page_down
page_down-KeepsView t v =
    (page_down-InView t v, repeat-SameValues select_next_menu_entry next-SameValues 6 t)

pub page_up-KeepsView : KeepsView page_up
unfolding page_up
page_up-KeepsView t v =
    (page_up-InView t v, repeat-SameValues select_prev_menu_entry prev-SameValues 6 t)
