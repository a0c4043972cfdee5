-- ===== src/Proxy.antt =====
-- src/proxy.rs: what the request path makes of client-supplied text.
pub mod Labels
pub mod Cardinality
pub mod Paths
