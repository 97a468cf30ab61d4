-- ===== src/Menuconfig/Texts/Pinned.antt =====
-- What the value text of an entry tells (menuconfig.py).
use ve_root.Base.{ℕ, ◌≡◌, refl, Bool, true, false, not, ◌||◌, [], ◌∷◌, length, ltb, ◌==◌}
use ve_root.Menuconfig.Nodes.{
  symbol, Attrs, Tree, Conf, Text, SymType, bool, tristate, string, int, hex, unknown,
}
use ve_root.Menuconfig.Session.{World}
use ve_root.Menuconfig.Shown.{prompt_shows}
use ve_root.Menuconfig.Values.{is_typed_in, is_sc, is_y_mode_choice_sym, changeable}
use ve_root.Menuconfig.Texts.{
  Labels, is_unknown, is_choice_item, tri_text, tri_form, typed_form, value_str,
}

pub starts_with_dash : Text → Bool
starts_with_dash [] = false
starts_with_dash (c ∷ t) = c == b'-'

tri_form-pinned :
    (y_mode selected many is_bool m_y : Bool) (t : Text)
    → starts_with_dash (tri_form y_mode selected many false is_bool m_y t) ≡ not (many || y_mode)
unfolding tri_form starts_with_dash
tri_form-pinned true true true is_bool m_y t = refl
tri_form-pinned true true false is_bool m_y t = refl
tri_form-pinned true false true is_bool m_y t = refl
tri_form-pinned true false false is_bool m_y t = refl
tri_form-pinned false selected false is_bool m_y t = refl
tri_form-pinned false selected true true m_y t = refl
tri_form-pinned false selected true false true t = refl
tri_form-pinned false selected true false false t = refl

typed_form-pinned :
    (type : SymType) (s tri : Text) (many y_mode : Bool)
    → is_unknown type ≡ false
    → starts_with_dash tri ≡ not (many || y_mode)
    → starts_with_dash (typed_form type s tri) ≡ not (is_typed_in type || many || y_mode)
unfolding typed_form starts_with_dash is_unknown
typed_form-pinned unknown s tri many y_mode known h = cc
typed_form-pinned string s tri many y_mode known h = refl
typed_form-pinned int s tri many y_mode known h = refl
typed_form-pinned hex s tri many y_mode known h = refl
typed_form-pinned bool s tri many y_mode known h = h
typed_form-pinned tristate s tri many y_mode known h = h

module _ (world : World) (labels : Labels) (tree : Tree) (conf : Conf) where
  tri_text-pinned :
      (s : ℕ)
      → starts_with_dash (tri_text world labels tree conf (symbol s))
        ≡ not (
            ltb 1 (length (conf.assignable (symbol s)))
            || is_y_mode_choice_sym world tree conf (symbol s))
  unfolding tri_text is_choice_item
  tri_text-pinned s =
      tri_form-pinned (is_y_mode_choice_sym world tree conf (symbol s)) _
        (ltb 1 (length (conf.assignable (symbol s)))) _ _ _

  -- Whether the value text of a symbol of a known type starts with a dash.
  pub value_str-pinned :
      (s : ℕ)
      → is_unknown (tree.orig_type (symbol s)) ≡ false
      → starts_with_dash (value_str world labels tree conf (symbol s))
        ≡ not (
            is_typed_in (tree.orig_type (symbol s))
            || ltb 1 (length (conf.assignable (symbol s)))
            || is_y_mode_choice_sym world tree conf (symbol s))
  unfolding value_str is_sc
  value_str-pinned s known =
      typed_form-pinned (tree.orig_type (symbol s)) (conf.str_value (symbol s))
        (tri_text world labels tree conf (symbol s)) _ _ known (tri_text-pinned s)

  -- For a symbol of a known type whose prompt is shown: the value text of its entry starts with a
  -- dash exactly if the interface does not let the user change the symbol.
  pub value_str-changeable :
      (a : Attrs) (s : ℕ)
      → a.item ≡ symbol s
      → prompt_shows conf a.prompt ≡ true
      → is_unknown (tree.orig_type (symbol s)) ≡ false
      → starts_with_dash (value_str world labels tree conf a.item)
        ≡ not (changeable world tree conf a)
  unfolding changeable is_sc
  value_str-changeable a s e shows known = rw (e, shows) (value_str-pinned s known)
