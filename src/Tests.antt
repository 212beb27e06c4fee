-- ===== src/Tests.antt =====
-- Sample data, and each theorem that has conditions applied to a case that meets them.
pub mod Samples
mod Trading
mod Positions
mod Regimes
mod Selections
mod Stores
mod Schedules
mod Windows
mod Backtests
mod Composites
mod Lifecycles
mod Strategies
