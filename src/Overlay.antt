-- ===== src/Overlay.antt =====
-- The in-game overlay, client/voice/overlay.cpp, as far as it decides something: the support chat,
-- what the game sees of the input and of the ini files, the window and the device, the names of keys,
-- and the panel that is drawn.
pub mod Json
pub mod Names
pub mod Ini
pub mod Support
pub mod Input
pub mod Window
pub mod Screen
pub mod Draw
