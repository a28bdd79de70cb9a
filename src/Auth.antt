-- ===== src/Auth.antt =====
-- Tokens of the API: src/api/token_store.py, src/api/auth.py and src/api/routes/auth.py.
pub mod Store
pub mod Defs
pub mod Routes
pub mod Revocation
pub mod Access
mod Tests
