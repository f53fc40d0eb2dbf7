-- ===== src/Decode.antt =====
-- The decoder (src/decode/mod.rs).
pub mod Scalars
pub mod RoundTrip
pub mod Packed
pub mod Lists
pub mod Enum
pub mod EnumTable
pub mod Values
pub mod Slots
pub mod Message
pub mod Safety
pub mod Calm
pub mod Entries
pub mod Shapes
pub mod Owners
pub mod Groups
pub mod Rounds
pub mod Fields
pub mod Compiled
pub mod Total
pub mod Skips
pub mod Taken
pub mod Unknown
pub mod Verbatim
pub mod Kept
mod Examples
mod Samples
