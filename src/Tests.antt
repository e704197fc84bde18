-- ===== src/Tests.antt =====
-- Small runs of the theorems: concrete stand-ins for the crates that the sources call.
pub mod Crates
pub mod Memory
pub mod Stored
pub mod Written
pub mod Collected
pub mod Pooled
pub mod Piped
pub mod Disked
pub mod Packed
pub mod Opened
pub mod Examples
