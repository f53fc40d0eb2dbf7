-- ===== src/WellKnown.antt =====
-- Timestamps and durations (src/wellknown/mod.rs): their parts, the conversions and the codec.
pub mod Parts
pub mod Exact
pub mod Range
pub mod Bounds
pub mod Codec
pub mod RoundTrip
mod Examples
