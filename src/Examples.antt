-- ===== src/Examples.antt =====
-- The theorems at concrete inputs.
pub mod Data
mod Stores
mod Relays
pub mod Deliveries
pub mod Requests
mod Receivers
mod Guards
mod Pipelines
mod Network
