-- ===== src/Regime.antt =====
-- domain/regime and its use cases: temporal windows and the selection of a strategy by market regime.
pub mod Temporal
pub mod Artifacts
pub mod Selection
pub mod Observations
pub mod Parts
pub mod Select
pub mod Json
pub mod Audit
pub mod Payloads
pub mod Rows
pub mod Store
pub mod Scheduler
