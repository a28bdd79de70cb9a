-- ===== src/CrossChain.antt =====
-- src/graph/cross_chain.py: addresses seen on several chains, and at bridges.
pub mod Defs
pub mod Boost
mod Tests
