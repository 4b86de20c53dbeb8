-- ===== src/Preprocess.antt =====
-- src/preprocess: the built-in preprocessor, a module for each file of the source.
pub mod Token
mod Tests
pub mod Lexer
pub mod Directive
pub mod Macros
pub mod Expr
pub mod Processor
