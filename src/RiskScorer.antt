-- ===== src/RiskScorer.antt =====
-- src/response/risk_scorer.py: the composite of the model scores, its tier and its confidence.
pub mod Defs
pub mod Score
pub mod Tiers
pub mod Composite
pub mod Run
pub mod Driver
mod Tests
