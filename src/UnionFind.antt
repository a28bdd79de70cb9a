-- ===== src/UnionFind.antt =====
-- class UnionFind of src/graph/threat_graph.py: the disjoint sets of wallets, with path
-- compression and union by rank. `find` recurs along parents, so the model takes fuel.
pub mod Roots
pub mod Defs
pub mod Invariant
pub mod Compress
pub mod Total
pub mod Find
pub mod Link
pub mod Union
pub mod Merge
pub mod Clusters
mod Tests
