-- ===== src/Parse.antt =====
-- The parser of `DescriptorProto` bytes (src/parse/mod.rs).
pub mod Types
pub mod RawField
pub mod MapEntry
pub mod Interpret
pub mod Message
pub mod Ends
pub mod Fields
pub mod Formed
pub mod Examples
