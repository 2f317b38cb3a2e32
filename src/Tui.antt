-- ===== src/Tui.antt =====
-- The terminal client, clients/tui/src.
pub mod Api
pub mod Chat
pub mod Sessions
pub mod Providers
pub mod Format
pub mod Commands
pub mod Ui
pub mod Layout
