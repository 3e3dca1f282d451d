-- ===== src/Compute.antt =====
-- The compute broker: internal/zerog/compute.
mod Types
pub mod Session
pub mod Catalog
pub mod Jobs
pub mod Sample
pub use Types.*
