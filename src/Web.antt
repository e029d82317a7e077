-- ===== src/Web.antt =====
-- The web client (apps/web-client): its Redux slices and the pure functions around them.
pub mod Messaging
pub mod Call
pub mod Notifications
pub mod DeviceKeys
pub mod ReadDedupe
pub mod ReceiptTicks
pub mod ConversationList
pub mod Retry
