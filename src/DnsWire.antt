-- ===== src/DnsWire.antt =====
-- Package internal/dnswire: parsing and building DNS messages.
pub mod Errors
pub mod Labels
pub mod Name
pub mod Header
pub mod Record
pub mod Rdata
pub mod Scanner
pub mod Message
pub mod Template
pub mod Build
pub mod Samples
mod Tests
mod ReplyTests
