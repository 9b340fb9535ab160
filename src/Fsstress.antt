-- ===== src/Fsstress.antt =====
-- fsstress.c, by its parts.
pub mod Files
pub mod Tree
pub mod Operations
pub mod Rename
pub mod Table
mod Tests
