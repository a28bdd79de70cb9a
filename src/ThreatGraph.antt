-- ===== src/ThreatGraph.antt =====
-- class ThreatGraph of src/graph/threat_graph.py, over networkx's graph and `UnionFind`.
pub mod Defs
pub mod Nodes
pub mod Transactions
pub mod Flags
pub mod Paths
pub mod Owners
pub mod Trace
pub mod RoundTrips
pub mod ClusterRisk
mod Tests
