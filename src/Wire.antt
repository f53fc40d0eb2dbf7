-- ===== src/Wire.antt =====
-- The protobuf wire format (src/wire/mod.rs): what the buffer holds, the cursor that reads it,
-- the functions that append to it, and the laws of both. A `&[u8]` or `Vec<u8>` is a list of
-- numbers below 256.
pub mod Types
pub mod Reader
pub mod Loop
pub mod Writer
pub mod ZigZag
pub mod Varint
pub mod RoundTrip
pub mod Progress
pub mod VarintLen
pub mod LenPrefix
pub mod Steps
pub mod Errors
pub mod Stream
mod Examples
