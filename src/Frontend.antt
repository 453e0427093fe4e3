-- ===== src/Frontend.antt =====
-- generator/src/Frontend: the normalized schema and how it is parsed.
pub mod Ast
pub mod CppTypes
pub mod Schema
pub mod Parser
pub mod Methods
