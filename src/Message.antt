-- ===== src/Message.antt =====
-- The compiled message class (src/message/mod.rs).
pub mod Class
pub mod Link
mod Push
pub mod Oneofs
mod Examples
pub mod Compiled
pub mod Linking
pub mod Ready
