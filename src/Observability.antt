-- ===== src/Observability.antt =====
-- Costs and budgets, crates/neurust-intel/src/observability.
pub mod Budget
pub mod Period
pub mod Tracker
pub mod Forecast
