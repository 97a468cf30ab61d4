-- ===== src/Guiconfig/Tests.antt =====
-- A small menu tree for guiconfig.py, with runs of the script on it, and instances of the theorems.
mod Searching
use ve_root.Guiconfig.Main.Start.{Starts, start-Starts}
use ve_root.Base.{
  ap, ◌≢◌, arith, ℕ, ◌≡◌, refl, Bool, true, false, none, some, List, [], ◌∷◌, ◌==◌, leb, Every,
  Bool-cases, inl, inr, if◌then◌else◌, sym, ==_iff,
}
use ve_root.Menuconfig.Nodes.{symbol, menu, end, node, MenuNode, menu_node, Tree}
use ve_root.Menuconfig.Navigate.{parent_menu}
use ve_root.Menuconfig.Dialogs.{Exit}
use ve_root.Menuconfig.Tests.{attrs_of, sub_list, sub_menu, foo, bar, baz, sample_tree, sample_conf}
use ve_root.Menuconfig.Tests.Running.{sample_world}
use ve_root.Guiconfig.Shown.{shown_menu_nodes, shown_full_nodes}
use ve_root.Guiconfig.Shown.Probe.{Probes, shown_menu_nodes-Probes}
use ve_root.Guiconfig.View.{Row, updated, top_level, under, get_children}
use ve_root.Guiconfig.View.Attached.{Linked, All, Fits}
use ve_root.Guiconfig.View.Updated.{shown_at, top_at, updated-Linked}
use ve_root.Guiconfig.Scroll.{vis_loc_ref_item}
use ve_root.Guiconfig.Window.{Window, Outcome, returns, ◌>>=◌}
use ve_root.Guiconfig.Window.Post.{Post, IsMenu, IsMenuTree, IsSound}
use ve_root.Guiconfig.Files.{is_empty, on_quit}
use ve_root.Guiconfig.View.{build_menu_tree}
use ve_root.Guiconfig.Moves.Return.{Returned, has_first, leave_menu-enter}
use ve_root.Guiconfig.Moves.{
  leave_menu, toggle_tree_mode, enter_menu_and_select_first, select_first, toggle_showall,
}
use ve_root.Menuconfig.Shown.{visible}
use ve_root.Guiconfig.Main.{
  first_window, start, Event, quit, call, tree_mode, enter_key, left, showall, focus_on, find,
  mainloop,
}
use ve_root.Guiconfig.Main.Sound.{Ends, mainloop-Ends}

-- FOO (1), and a menu (2) with BAR (3) and the hidden BAZ (4).
abbrev top : MenuNode
top =
    menu_node (attrs_of 0 menu true 1)
      (node (attrs_of 1 (symbol 10) false 1) end (node (attrs_of 2 menu true 1) sub_list end))

abbrev parents_of : ℕ → List MenuNode
parents_of i = if leb 3 i then sub_menu ∷ (top ∷ []) else if i == 0 then [] else top ∷ []

abbrev tree : Tree
tree = record sample_tree { top_node = top; ancestors = parents_of }

abbrev nodes : List MenuNode
nodes = foo ∷ (sub_menu ∷ (bar ∷ (baz ∷ [])))

option_inj : {a b : MenuNode} → some a ≡ some b → a ≡ b
option_inj e = cc

impossible : {b : MenuNode} → none ≡ some b → ⊥
impossible e = cc

find-Every :
    (P : MenuNode → Type 0) (ns : List MenuNode) (i : ℕ) (n : MenuNode)
    → Every P ns
    → find ns i ≡ some n
    → (n.id ≡ i) × P n
unfolding find
find-Every P [] i n h e = cc
find-Every P (m ∷ ns) i n h e = elim (Bool-cases (m.id == i)) [
  | inl same ↦
      let here : m ≡ n = option_inj (rw (find, same) at e) in
      rw (sym here) ((==_iff m.id i).0 same, h.0)
  | inr other ↦ find-Every P ns i n h.1 (rw (find, other) at e)
]

other : (i : ℕ) → (i == 0) ≡ false → i ≢ 0
other i e h = ground (arith, e, h)

sub_menu-IsMenu : IsMenu (find nodes) tree sub_menu
unfolding find
sub_menu-IsMenu = record {
  menus = (λ e f. cc, tt, (λ e f. cc, tt, tt));
  known = (refl, tt, (refl, tt, tt));
  links = (refl, tt, (refl, tt, tt, other 4 refl), other 3 refl);
}

top-IsMenu : IsMenu (find nodes) tree top
unfolding find
top-IsMenu = record {
  menus = (λ e f. cc, tt, (λ e f. cc, sub_menu-IsMenu.menus, tt));
  known = (refl, tt, (refl, sub_menu-IsMenu.known, tt));
  links = (refl, tt, (refl, sub_menu-IsMenu.links, tt, other 2 refl), other 1 refl);
}

parent-IsMenu : (i : ℕ) (m : MenuNode) → parent_menu tree i ≡ some m → IsMenu (find nodes) tree m
unfolding parent_menu
parent-IsMenu i m e = elim (Bool-cases (leb 3 i)) [
  | inl deep ↦ let here : sub_menu ≡ m = option_inj (rw deep at e) in rw (sym here) sub_menu-IsMenu
  | inr flat ↦ elim (Bool-cases (i == 0)) [
    | inl root ↦ absurd (impossible (rw (flat, root) at e))
    | inr inner ↦
        let here : top ≡ m = option_inj (rw (flat, inner) at e) in rw (sym here) top-IsMenu
  ]
]

-- Each node has a menu that it stands in.
abbrev HasMenu : MenuNode → Type 0
HasMenu n = IsMenu (find nodes) tree n × ((m : MenuNode) × (parent_menu tree n.id ≡ some m))

nodes-HasMenu : Every HasMenu nodes
unfolding parent_menu
nodes-HasMenu = (
  (record { menus = tt; known = tt; links = tt }, (top, refl)),
  (
    (sub_menu-IsMenu, (top, refl)),
    (
      (record { menus = tt; known = tt; links = tt }, (sub_menu, refl)),
      ((record { menus = tt; known = tt; links = tt }, (sub_menu, refl)), tt),
    ),
  ),
)

tree-IsMenuTree : IsMenuTree (find nodes) tree
tree-IsMenuTree = record {
  top = top-IsMenu;
  found = λ i n e. let (same, h) = find-Every HasMenu nodes i n nodes-HasMenu e in (same, h.0);
  parents = parent-IsMenu;
  has_parent = λ i n e. (find-Every HasMenu nodes i n nodes-HasMenu e).1.1;
}

abbrev window : Window
window = record {
  view = record { rows = []; is_open = λ _. false; focus = none };
  conf = sample_conf;
  cur_menu = top;
  show_all = false;
  single_menu = false;
  conf_changed = true;
  conf_filename = b'c' ∷ [];
  minconf_filename = b'd' ∷ [];
  on_disk = sample_conf;
}

window-IsSound : IsSound (find nodes) tree window
window-IsSound = record { menu = top-IsMenu; saved = λ _. refl; current = λ e. absurd cc }

-- Single-menu mode at FOO, into the menu, show-all mode, back, and the quit dialog, which is
-- answered by Yes.
abbrev events : List Event
events =
    call (tree_mode 1)
    ∷ (call (focus_on 2)
        ∷ (call (enter_key []) ∷ (call (showall 1) ∷ (call left ∷ (quit (some true ∷ []) ∷ [])))))

mainloop-Ends_example :
    Post
      (Ends sample_world tree nodes tree-IsMenuTree)
      (IsSound (find nodes) tree)
      (mainloop sample_world tree nodes events window)
mainloop-Ends_example =
    mainloop-Ends sample_world tree nodes tree-IsMenuTree events window window-IsSound

-- The script ends, with the top menu on display and the menu selected.
abbrev shown_at_end : Outcome Exit → List ℕ
shown_at_end (returns x w) = get_children top_level w.rows
shown_at_end _ = []

events_run : shown_at_end (mainloop sample_world tree nodes events window) ≡ 1 ∷ (2 ∷ [])
unfolding mainloop find is_empty toggle_tree_mode get_children visible enter_menu_and_select_first
    select_first toggle_showall on_quit
events_run = refl

abbrev opened : ℕ → Bool
opened i = i == 2

updated-Linked_example :
    (rs : List Row) × (updated tree sample_conf true false top opened ≡ some rs)
    × Linked rs
    × Every (Fits tree (top_at tree sample_conf true false top)) rs
    × All (shown_at tree sample_conf true false top) rs
updated-Linked_example =
    updated-Linked tree sample_conf true false top opened top-IsMenu.links top-IsMenu.links

shown_menu_nodes-Probes_example :
    Probes (shown_menu_nodes sample_conf true top) (shown_full_nodes sample_conf true top)
shown_menu_nodes-Probes_example = shown_menu_nodes-Probes sample_conf true top top-IsMenu.menus

start-Starts_example : Starts sample_world (find nodes) tree tree-IsMenuTree (
    start sample_world tree
      (first_window sample_world tree false sample_conf (b'c' ∷ []) (b'd' ∷ [])))
start-Starts_example =
    start-Starts sample_world (find nodes) tree tree-IsMenuTree false sample_conf (b'c' ∷ [])
      (b'd' ∷ [])

-- Single-menu mode, at the top.
abbrev single_window : Window
single_window = record window {
  single_menu = true;
  view = record {
    rows = build_menu_tree tree sample_conf false top [];
    is_open = λ _. false;
    focus = none;
  };
}

single_window-IsSound : IsSound (find nodes) tree single_window
single_window-IsSound = record {
  menu = top-IsMenu;
  saved = λ _. refl;
  current = λ _. inl (false, refl);
}

sub_menu-shows : shown_menu_nodes sample_conf false sub_menu ≢ []
unfolding shown_menu_nodes visible
sub_menu-shows = λ e. cc

leave_menu-enter_example :
    (w' : Window) × ((enter_menu_and_select_first tree sub_menu >>= λ _. leave_menu tree)
        single_window
      ≡ returns tt w')
    × Returned tree single_window sub_menu w'
unfolding parent_menu
leave_menu-enter_example =
    leave_menu-enter tree (find nodes) single_window sub_menu tree-IsMenuTree refl refl
      sub_menu-IsMenu (other 2 refl) refl sub_menu-shows

-- A red item at the top with a visible item below it: no neighbour of the first is found.
red_at_top :
    vis_loc_ref_item
      (record { place = top_level; id = 1; red = true }
        ∷ (record { place = under 1; id = 2; red = false } ∷ []))
      1
    ≡ none
unfolding vis_loc_ref_item
red_at_top = refl
