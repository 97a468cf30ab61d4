-- ===== src/Guiconfig/Matches.antt =====
-- The search of the jump-to dialog (guiconfig.py): `_update_jump_to_matches()` and the list of
-- items that `_update_jump_to_display()` shows.
pub mod Agree
use ve_root.Base.{
  ℕ, Bool, true, false, ◌||◌, Option, none, some, List, [], ◌∷◌, ◌++◌, map, if◌then◌else◌,
}
use ve_root.Menuconfig.Nodes.{Prompt, MenuNode, Text}
use ve_root.Menuconfig.Session.{World}
use ve_root.Menuconfig.Search.{compile_all, name_matches, prompt_matches}

-- `_jump_to_matches`, with the items and the selection of `_jump_to_tree`.
pub record Matches : Type 0 where
  pub nodes : List MenuNode
  pub shown : List ℕ
  pub selection : Option ℕ

-- The first match is selected.
first_match : List MenuNode → Option ℕ
first_match [] = none
first_match (n ∷ ns) = some n.id

module _ (world : World) where
  -- The inner loops over the searches, with `break` and `else`.
  sc_loop : List (Text → Bool) → MenuNode → Bool
  unfolding name_matches prompt_matches
  sc_loop [] n = true
  sc_loop (search ∷ rest) n =
      let more = sc_loop rest n in
      if name_matches world search (world.sc_name n.item) || prompt_matches world search n.prompt
      then more
      else false

  -- Menus and comments have a prompt.
  mc_loop : List (Text → Bool) → MenuNode → Bool
  unfolding prompt_matches
  mc_loop [] n = true
  mc_loop (search ∷ rest) n =
      let more = mc_loop rest n in if prompt_matches world search n.prompt then more else false

  -- The outer loops, which append to the matches so far.
  add_matches : (MenuNode → Bool) → List MenuNode → List MenuNode → List MenuNode
  add_matches hits [] found = found
  add_matches hits (n ∷ ns) found =
      add_matches hits ns (if hits n then found ++ (n ∷ []) else found)

  all_matches : List (Text → Bool) → List MenuNode
  unfolding sc_loop mc_loop add_matches
  all_matches searches =
      add_matches (mc_loop searches) world.sorted_menu_comment_nodes
        (add_matches (sc_loop searches) world.sorted_sc_nodes [])

  -- A bad regular expression clears the items and keeps `_jump_to_matches`.
  unfoldable pub update_jump_to_matches : Text → Matches → Matches
  unfolding all_matches first_match compile_all
  update_jump_to_matches s m = elim (compile_all world (world.split (world.lower_text s))) [
    | none ↦ record m { shown = []; selection = none }
    | some searches ↦
        let found = all_matches searches in
        record {
          nodes = found;
          shown = map (λ (n : MenuNode). n.id) found;
          selection = first_match found;
        }
  ]
