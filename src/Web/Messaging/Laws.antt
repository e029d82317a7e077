-- ===== src/Web/Messaging/Laws.antt =====
-- What holds of the messaging slice.
pub mod Merging
pub mod Ids
pub mod WellFormed
pub mod Settling
pub mod Hydration
pub mod Frame
pub mod Runs
pub mod Race
pub mod Receipts
mod Tests
