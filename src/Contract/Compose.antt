-- ===== src/Contract/Compose.antt =====
-- src/contract/compose.rs: the projection of a package to a selection, and the merge of two
-- packages.
mod Equal
pub mod Union
pub mod Closure
pub mod Reason
pub mod Merge
pub mod Retain
mod Tests
