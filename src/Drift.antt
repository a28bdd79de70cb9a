-- ===== src/Drift.antt =====
-- src/monitoring/drift_detector.py: the window of live scores and the population stability index.
pub mod Detector
pub mod Window
mod Tests
