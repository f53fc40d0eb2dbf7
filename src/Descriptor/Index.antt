-- ===== src/Descriptor/Index.antt =====
-- `FieldIndex` (src/descriptor/mod.rs): a direct table for compact numbering, sorted pairs for
-- sparse numbering; `Defs` has the code, the other modules its laws.
mod Defs
mod Dense
mod Sorted
mod Bisect
pub mod Lookup
unfoldable pub use Defs.{build, get, field_by_number, position, max_number, fill}
pub use Defs.{FieldIndex, dense, sparse}
