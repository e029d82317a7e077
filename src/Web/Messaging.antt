-- ===== src/Web/Messaging.antt =====
-- The messaging slice (apps/web-client/src/modules/home/stores/messagingSlice.ts): its state, the
-- merge functions, the reducers and their laws.
pub mod State
pub mod Merge
pub mod Hydrate
pub mod Thread
pub mod Laws
pub mod Session
pub mod Receipts
pub mod Reducer
