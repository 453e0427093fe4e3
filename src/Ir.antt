-- ===== src/Ir.antt =====
-- generator/src/IR: the dependency graph of the types and the endpoints.
pub mod Aliases
pub mod Endpoint
pub mod Graph
