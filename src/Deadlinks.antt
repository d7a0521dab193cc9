-- ===== src/Deadlinks.antt =====
-- src/deadlinks: the scanner for dead links.
pub mod Class
pub mod Classify
pub mod External
pub mod Internal
pub mod Extract
pub mod Store
pub mod Scan
pub mod Walk
