-- ===== src/Config.antt =====
-- src/config.rs: the stored configuration, and what the pool and the router take from it.
pub mod Text
pub mod Types
pub mod Views
pub mod Indexes
pub mod Keys
pub mod Routing
pub mod Chars
pub mod Locale
pub mod Verdict
pub mod Urls
pub mod Validate
pub mod Wellformed
pub mod Checks
pub mod Groups
pub mod Rulebook
