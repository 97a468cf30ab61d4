-- ===== src/Guiconfig/Images.antt =====
-- The images of the items (guiconfig.py): `_img_tag()`.
pub mod Locked
use ve_root.Base.{ℕ, Bool, true, false, not, List, [], ◌∷◌, ◌++◌, length, ltb, if◌then◌else◌, codes}
use ve_root.Menuconfig.Nodes.{
  Item, symbol, choice, menu, comment, is_choice, Tree, Conf, Text, SymType, unknown,
}
use ve_root.Menuconfig.Values.{is_sc, is_typed_in, is_y_mode_choice_sym}
use ve_root.Menuconfig.Texts.{Labels, is_unknown, is_m_y, is_selected}
use ve_root.Menuconfig.Session.{World}

-- The images, some of them for a value.
pub data Image : Type 0 where
  no_image edit selected not_selected : Image
  locked of_bool of_my of_tri : Text → Image

-- The tag for an image.
tag_name : Image → Text
tag_name no_image = []
tag_name edit = codes "edit"
tag_name selected = codes "selected"
tag_name not_selected = codes "not-selected"
tag_name (locked v) = v ++ codes "-locked"
tag_name (of_bool v) = v ++ codes "-bool"
tag_name (of_my v) = v ++ codes "-my"
tag_name (of_tri v) = v ++ codes "-tri"

-- A bool or tristate symbol or choice, by the tests of the code in their order.
image_of : (y_mode is_selection many is_choice is_bool m_y : Bool) → Text → Image
image_of true true many is_choice is_bool m_y v = selected
image_of true false many is_choice is_bool m_y v = not_selected
image_of false is_selection false true is_bool m_y v = no_image
image_of false is_selection false false is_bool m_y v = locked v
image_of false is_selection true is_choice true m_y v = of_bool v
image_of false is_selection true is_choice false true v = of_my v
image_of false is_selection true is_choice false false v = of_tri v

module _ (world : World) (labels : Labels) (tree : Tree) (conf : Conf) where
  unfoldable pub image : Item → Image
  unfolding image_of is_sc is_unknown is_y_mode_choice_sym is_selected is_m_y
  image item =
      if not (is_sc item)
      then no_image
      else if is_unknown (tree.orig_type item)
      then no_image
      else if is_typed_in (tree.orig_type item)
      then edit
      else image_of (is_y_mode_choice_sym world tree conf item)
          (is_selected world labels tree conf item) (ltb 1 (length (conf.assignable item)))
          (is_choice item) (labels.is_bool conf item) (is_m_y (conf.assignable item))
          (conf.str_value item)

  unfoldable pub img_tag : Item → Text
  unfolding image tag_name
  img_tag item = tag_name (image item)
