-- ===== src/History.antt =====
-- src/history.rs and its children: the telemetry kept on disk.
pub mod Records
pub mod Codec
pub mod RoundTrip
pub mod Recovery
pub mod Scanner
pub mod Retention
pub mod Canonical
pub mod Pending
pub mod Scanned
pub mod Excluded
pub mod Sound
pub mod Gathered
pub mod Taken
pub mod Validated
pub mod Retained
pub mod Epochs
pub mod Compacted
pub mod Writing
pub mod Compaction
pub mod Opening
pub mod Accepted
pub mod Replaced
pub mod Outcome
