-- ===== src/Web/Api/Upstreams.antt =====
-- The requests that websites/src/lib/api/server makes of the backend.
pub mod Chat
pub mod Providers
pub mod Orgs
pub mod Wiki
pub mod Knowledge
pub mod Bookmarks
pub mod Shares
