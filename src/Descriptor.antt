-- ===== src/Descriptor.antt =====
-- The compiled description of a message (src/descriptor/mod.rs): its types, and the precomputed
-- index from field numbers to fields.
pub mod Types
pub mod Index
mod Examples
