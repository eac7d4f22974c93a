-- ===== src/ModuleApi.antt =====
-- module/api.go: the modules that a service starts, their dependency order, and their execution.
-- `Sort` is in `Graph` (the nodes and the edges) and `Kahn` (the loop over the ready nodes).
pub mod Names
pub mod Graph
pub mod Kahn
pub mod Early
pub mod Order
pub mod Execute
mod Samples
