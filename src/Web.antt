-- ===== src/Web.antt =====
-- The web client, websites/src.
pub mod Chat
pub mod Auth
pub mod Api
