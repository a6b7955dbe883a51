-- ===== src/Resolve.antt =====
-- Package internal/resolve: the way of a query through policy, cache and upstreams.
pub mod Flights
mod Tests
