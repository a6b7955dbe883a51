-- ===== src/Stats.antt =====
-- Package internal/stats: what the statistics count.
pub mod Latency
mod Tests
