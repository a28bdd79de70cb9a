-- ===== src/Pipeline.antt =====
-- src/pipeline/scoring_pipeline.py, on the components it calls.
pub mod Worker
pub mod Run
pub mod Offline
mod Tests
