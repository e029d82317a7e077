-- ===== src/Api.antt =====
-- The messaging service, apps/messaging-service/src.
pub mod Service
pub mod Documents
pub mod Mongo
pub mod Receipts
pub mod Send
pub mod RateLimit
pub mod Paging
pub mod Sessions
pub mod Signaling
pub mod SocketAuth
