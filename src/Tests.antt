-- ===== src/Tests.antt =====
-- Concrete inputs on which the theorems are applied.
pub mod Access
pub mod Content
pub mod Files
pub mod Sweeping
pub mod Tolls
pub mod Links
