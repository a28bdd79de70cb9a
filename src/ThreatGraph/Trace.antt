-- ===== src/ThreatGraph/Trace.antt =====
-- `peel_back` of src/graph/threat_graph.py: the search backward, and what it returns.
pub mod Peel
pub mod Visit
pub mod Exact
