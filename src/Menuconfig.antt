-- ===== src/Menuconfig.antt =====
-- scripts/kconfig/menuconfig.py, the program behind `make menuconfig`.
pub mod Change
pub mod Colors
pub mod Dialogs
pub mod Edit
pub mod Fullscreen
pub mod Keys
pub mod Main
pub mod Navigate
pub mod Nodes
pub mod Search
pub mod Listing
pub mod Session
pub mod Shown
pub mod State
pub mod Texts
pub mod Values
pub mod Tests
