-- ===== src/Features.antt =====
-- src/ml/tabular: the features of a transaction, and the velocity of an address.
pub mod Defs
pub mod History
pub mod Velocity
mod Tests
