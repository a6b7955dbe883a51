-- ===== src/Upstream.antt =====
-- Package internal/upstream: the exchange with upstream servers.
pub mod Ids
pub mod Health
pub mod Validate
mod Tests
