-- ===== src/Policy.antt =====
-- Package internal/policy: the name policy that allows and blocks queries.
pub mod Names
pub mod Rules
pub mod Glob
pub mod Matcher
mod Tests
