-- ===== src/RateLimiter.antt =====
-- src/api/middleware/rate_limiter.py: the sliding-window limiter and its middleware.
pub mod Defs
pub mod History
pub mod Window
mod Tests
