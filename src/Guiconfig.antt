-- ===== src/Guiconfig.antt =====
-- The windowed interface of the configuration, guiconfig.py. The menu tree and the values are those
-- of `Menuconfig.Nodes`, and `_visible()`, `_changeable()` and `_needs_save()`, which the script
-- has in common with menuconfig.py, are the definitions of `Menuconfig.Shown` and
-- `Menuconfig.Values`.
pub mod Shown
pub mod View
pub mod Window
pub mod Scroll
pub mod Files
pub mod Change
pub mod Moves
pub mod Main
mod Tests
pub mod Images
pub mod Matches
