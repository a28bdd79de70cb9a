-- ===== src/ThreatGraph/Paths.antt =====
-- `find_laundering_paths` of src/graph/threat_graph.py: the search, and what it returns.
pub mod Search
pub mod Sound
pub mod Complete
pub mod Limit
