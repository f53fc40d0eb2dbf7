-- ===== src/Encode.antt =====
-- The encoder (src/encode/mod.rs).
pub mod Scalars
pub mod Presence
pub mod Packed
pub mod Parts
pub mod Repeated
pub mod Sequence
pub mod Writes
pub mod Rollback
pub mod Behind
pub mod Reference
pub mod Refines
pub mod Walk
pub mod Members
pub mod Safety
pub mod Calm
pub mod Total
pub mod Message
mod Examples
