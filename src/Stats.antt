-- ===== src/Stats.antt =====
-- internal/stats: traffic statistics.
mod Tests
pub mod Accounting
