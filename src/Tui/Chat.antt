-- ===== src/Tui/Chat.antt =====
-- The chat store of the terminal client, clients/tui/src/store/chat-store.ts.
pub mod Message
pub mod Store
pub mod Stream
pub mod Fold
pub mod Reply
pub mod Mirror
pub mod Races
