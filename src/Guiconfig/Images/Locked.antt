-- ===== src/Guiconfig/Images/Locked.antt =====
-- The images of guiconfig.py against the value texts of menuconfig.py.
use ve_root.Base.{ℕ, ◌≡◌, refl, ◌∙◌, sym, Bool, true, false, not, ◌||◌, if◌then◌else◌}
use ve_root.Menuconfig.Nodes.{symbol, Tree, Conf, Text}
use ve_root.Menuconfig.Session.{World}
use ve_root.Menuconfig.Values.{is_sc, is_typed_in, is_y_mode_choice_sym}
use ve_root.Menuconfig.Texts.{Labels, is_unknown, value_str}
use ve_root.Menuconfig.Texts.Pinned.{starts_with_dash, value_str-pinned}
use ve_root.Guiconfig.Images.{Image, edit, locked, image_of, image}

abbrev pub is_locked : Image → Bool
is_locked (locked v) = true
is_locked _ = false

image_of-locked :
    (y_mode selection many is_bool m_y : Bool) (v : Text)
    → is_locked (image_of y_mode selection many false is_bool m_y v) ≡ not (many || y_mode)
unfolding image_of
image_of-locked true true true is_bool m_y v = refl
image_of-locked true true false is_bool m_y v = refl
image_of-locked true false true is_bool m_y v = refl
image_of-locked true false false is_bool m_y v = refl
image_of-locked false selection false is_bool m_y v = refl
image_of-locked false selection true true m_y v = refl
image_of-locked false selection true false true v = refl
image_of-locked false selection true false false v = refl

typed-locked :
    (typed many y_mode : Bool) (i : Image)
    → is_locked i ≡ not (many || y_mode)
    → is_locked (if typed then edit else i) ≡ not (typed || many || y_mode)
typed-locked true many y_mode i h = refl
typed-locked false many y_mode i h = h

module _ (world : World) (labels : Labels) (tree : Tree) (conf : Conf) where
  -- The two interfaces agree on a symbol of a known type: guiconfig.py shows the image of a lock
  -- exactly if the value text of menuconfig.py starts with a dash.
  pub image-value_str :
      (s : ℕ)
      → is_unknown (tree.orig_type (symbol s)) ≡ false
      → is_locked (image world labels tree conf (symbol s))
        ≡ starts_with_dash (value_str world labels tree conf (symbol s))
  unfolding image is_sc
  image-value_str s known = simp known (
      typed-locked (is_typed_in (tree.orig_type (symbol s))) _ _ _
        (image_of-locked (is_y_mode_choice_sym world tree conf (symbol s)) _ _ _ _ _)
      ∙ sym (value_str-pinned world labels tree conf s known))
