-- ===== src/Driver.antt =====
-- src/driver.rs: the parts of the submission and completion core.
pub mod Slab
pub mod Files
pub mod Retry
pub mod Admission
mod Tests
