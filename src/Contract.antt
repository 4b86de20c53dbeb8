-- ===== src/Contract.antt =====
-- src/contract: the encodings and checks of the source contract.
pub mod Checked
pub mod Hex
pub mod Canonical
pub mod Selection
pub mod Diagnostics
pub mod Types
pub mod Declarations
pub mod Package
pub mod Compose
pub mod Integer
pub mod Entity
pub mod Complete
mod Tests
