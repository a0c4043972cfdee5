-- ===== src/Observation.antt =====
-- src/observation.rs: what the proxy observes of upstream responses, beside the relayed bytes.
pub mod Json
pub mod Seen
pub mod Usage
pub mod Metrics
pub mod Tables
pub mod State
pub mod Sse
pub mod Agreement
pub mod Reported
pub mod Totals
pub mod Bounds
pub mod Retained
pub mod Lines
pub mod Framing
