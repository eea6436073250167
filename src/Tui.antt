-- ===== src/Tui.antt =====
-- src/tui: the terminal UI, as far as its input goes.
pub mod Codes
pub mod Key
pub mod Loop
pub mod Drawing
pub mod Reading
