-- ===== src/Tests.antt =====
-- The theorems at concrete inputs.
mod Graphs
mod Trees
mod Names
mod Schemas
mod Endpoints
mod Validation
mod Queues
mod Aliases
