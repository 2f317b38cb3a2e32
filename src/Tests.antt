-- ===== src/Tests.antt =====
-- The theorems at concrete inputs, and tests of the definitions.
pub mod Sse
pub mod Tui
pub mod Web
