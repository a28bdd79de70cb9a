-- ===== src/Backtest.antt =====
-- src/backtesting/backtester.py: the confusion counts of a threshold, and the best threshold.
pub mod Defs
pub mod Threshold
mod Tests
