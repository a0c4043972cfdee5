-- ===== src/Settings.antt =====
-- src/settings.rs: the handlers that write the configuration store.
pub mod State
pub mod Edits
pub mod NimKeys
pub mod Clients
pub mod Sections
pub mod Users
pub mod Accounts
pub mod Locales
pub mod Setup
pub mod Calls
pub mod Written
pub mod Floor
pub mod Gives
pub mod Kept
pub mod Superuser
pub mod Immune
pub mod Guarded
pub mod Orphans
pub mod Owned
pub mod Authority
pub mod Plain
pub mod Race
