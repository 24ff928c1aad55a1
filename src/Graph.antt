-- ===== src/Graph.antt =====
-- The knowledge graph of past incidents: internal/graph and its use in cmd/worker.
pub mod Types
pub mod Rows
pub mod Float
pub mod Tokens
pub mod Properties
pub mod Score
pub mod Search
pub mod Subgraph
pub mod Calls
