-- ===== src/Examples.antt =====
-- The theorems at concrete inputs.
mod Pools
mod Models
mod Streams
mod Requests
mod Histories
mod Tokens
mod Stores
