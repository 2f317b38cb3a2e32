-- ===== src/Web/Chat.antt =====
-- The chat store of the web client, websites/src/features/chat/stores/chat-store.ts.
pub mod Attachments
pub mod Message
pub mod Batches
pub mod Store
pub mod Stream
pub mod Flushes
pub mod Refetch
pub mod Adopt
pub mod Turn
