-- ===== src/Graph.antt =====
-- src/suitcode/core/models: the workspace graph.
pub mod Types
pub mod Rows
pub mod Tables
pub mod Store
pub mod Scope
pub mod Update
pub mod WellFormed
pub mod Subgraph
pub mod Query
pub mod Workspace
mod Tests
