-- ===== src/DnsCache.antt =====
-- Package internal/dnscache: the cache of fresh answers.
pub mod Arena
pub mod Store
pub mod Key
pub mod Put
pub mod Lookup
mod Tests
mod AnswerTests
