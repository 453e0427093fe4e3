-- ===== src/Validator.antt =====
-- jsonschema/src: a compiler and validator for JSON schemas, a program of its own beside the generator.
pub mod Json
pub mod Uri
pub mod Values
pub mod Node
pub mod Build
pub mod Refs
pub mod Run
pub mod Locations
pub mod Leaves
pub mod Branches
pub mod Check
