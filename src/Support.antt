-- ===== src/Support.antt =====
-- generator/src/Support: names made fit for C++, literals and comments in generated code.
pub mod Sanitize
pub mod Escape
pub mod Comment
pub mod Names
