-- ===== src/Preprocess/Macros.antt =====
-- src/preprocess/macros.rs: the table of macros and their expansion. The table is the list of its
-- definitions, each under its own name, since `define` keys a definition by it.
mod Args
mod Substitute
mod Expand
pub mod Table
pub mod ArgLaws
pub mod Pasting
pub mod Total
pub mod Inert
unfoldable pub use Args.*
unfoldable pub use Substitute.*
unfoldable pub use Expand.*
unfoldable pub use Table.*
