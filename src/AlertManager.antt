-- ===== src/AlertManager.antt =====
-- src/response/alert_manager.py: alerts by address, with ageing priorities and eviction.
pub mod Defs
pub mod Entries
pub mod Evict
pub mod Update
pub mod Dedup
pub mod Stats
mod Tests
