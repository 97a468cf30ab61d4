-- ===== src/Menuconfig/Tests/Texts.antt =====
-- An instance of the theorem on the texts of entries, and some texts.
use ve_root.Base.{◌≡◌, refl, true, false, not, codes}
use ve_root.Menuconfig.Nodes.{symbol}
use ve_root.Menuconfig.Shown.{prompt_shows}
use ve_root.Menuconfig.Values.{changeable}
use ve_root.Menuconfig.Texts.{Labels, is_unknown, value_str, node_str}
use ve_root.Menuconfig.Texts.Pinned.{starts_with_dash, value_str-changeable}
use ve_root.Menuconfig.Tests.{attrs_of, sample_tree, sample_conf, foo}
use ve_root.Menuconfig.Tests.Running.{sample_world}

abbrev sample_labels : Labels
sample_labels = record { sc_expr_str = λ item. codes "<choice>"; is_bool = λ conf item. true }

prompt_of_foo : prompt_shows sample_conf (attrs_of 1 (symbol 10) false 1).prompt ≡ true
unfolding prompt_shows
prompt_of_foo = refl

known_type : is_unknown (sample_tree.orig_type (symbol 10)) ≡ false
unfolding is_unknown
known_type = refl

value_str-changeable_example :
    starts_with_dash (value_str sample_world sample_labels sample_tree sample_conf (symbol 10))
    ≡ not (changeable sample_world sample_tree sample_conf (attrs_of 1 (symbol 10) false 1))
value_str-changeable_example =
    value_str-changeable sample_world sample_labels sample_tree sample_conf
      (attrs_of 1 (symbol 10) false 1) 10 refl prompt_of_foo known_type

-- A symbol that may be changed and has no user value.
text_of_foo :
    node_str sample_world sample_labels sample_tree sample_conf false false foo
    ≡ codes "[ ] p (NEW)"
unfolding node_str
text_of_foo = refl
