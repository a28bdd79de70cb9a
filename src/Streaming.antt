-- ===== src/Streaming.antt =====
-- src/streaming: the Kafka producer with its buffer, and the consumer with its commits.
pub mod Producer
pub mod Buffer
pub mod Consumer
pub mod Commits
pub mod Skipped
mod Tests
