-- ===== src/Guiconfig/Tests/Searching.antt =====
-- Instances of the theorems on the search and the images of guiconfig.py, and some runs.
use mathlib.Core.Option
use ve_root.Base.{◌≡◌, refl, true, false, none, [], ◌∷◌, map, codes, get_elem?}
use ve_root.Menuconfig.Nodes.{symbol, MenuNode}
use ve_root.Menuconfig.Search.{find_matches}
use ve_root.Menuconfig.Texts.{Labels, is_unknown, value_str}
use ve_root.Menuconfig.Texts.Pinned.{starts_with_dash}
use ve_root.Menuconfig.Tests.{sample_tree, sample_conf}
use ve_root.Menuconfig.Tests.Running.{sample_world}
use ve_root.Guiconfig.Images.{image, img_tag}
use ve_root.Guiconfig.Images.Locked.{is_locked, image-value_str}
use ve_root.Guiconfig.Matches.{Matches, update_jump_to_matches}
use ve_root.Guiconfig.Matches.Agree.{update_jump_to_matches-find_matches}

abbrev no_matches : Matches
no_matches = record { nodes = []; shown = []; selection = none }

update_jump_to_matches-find_matches_example :
    ((update_jump_to_matches sample_world (codes "p") no_matches).shown
      ≡ map (λ (n : MenuNode). n.id) (find_matches sample_world (codes "p")))
    × ((update_jump_to_matches sample_world (codes "p") no_matches).selection
        ≡ Option.map (λ (n : MenuNode). n.id) (get_elem? (find_matches sample_world (codes "p")) 0))
update_jump_to_matches-find_matches_example =
    update_jump_to_matches-find_matches sample_world (codes "p") no_matches

search_run : (update_jump_to_matches sample_world (codes "p") no_matches).shown ≡ 1 ∷ (3 ∷ (2 ∷ []))
unfolding update_jump_to_matches
search_run = refl

abbrev labels : Labels
labels = record { sc_expr_str = λ item. codes "<choice>"; is_bool = λ conf item. true }

known_type : is_unknown (sample_tree.orig_type (symbol 10)) ≡ false
unfolding is_unknown
known_type = refl

image-value_str_example :
    is_locked (image sample_world labels sample_tree sample_conf (symbol 10))
    ≡ starts_with_dash (value_str sample_world labels sample_tree sample_conf (symbol 10))
image-value_str_example = image-value_str sample_world labels sample_tree sample_conf 10 known_type

image_run : img_tag sample_world labels sample_tree sample_conf (symbol 10) ≡ codes "n-bool"
unfolding img_tag
image_run = refl
