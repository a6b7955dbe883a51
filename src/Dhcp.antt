-- ===== src/Dhcp.antt =====
-- internal/dhcp: the lease engine, its settings and its messages.
pub mod Address
pub mod Settings
pub mod Lease
pub mod Engine
pub mod Handle
pub mod Complete
pub mod Recovery
pub mod Packet
pub mod WireReply
pub mod Sound
pub mod Tests
