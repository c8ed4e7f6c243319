-- ===== src/CostRouting.antt =====
-- Routing by cost and by experience, crates/neurust-intel/src/router.
pub mod Bandit
pub mod Complexity
pub mod Auctioneer
pub mod Prices
