-- ===== src/Visitors.antt =====
-- visitors.rs: visit totals and unique visitors by region.
pub mod Region
pub mod Hll
pub mod Tracker
