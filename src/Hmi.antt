-- ===== src/Hmi.antt =====
-- crates/mirum-vm-hmi/src/lib.rs: the contract of a machine image and its validation.
pub mod Types
pub mod Json
pub mod Validation
pub mod Validate
pub mod Spec
pub mod Parts
pub mod Distinct
pub mod Loops
pub mod Valid
pub mod Decode
pub mod Paths
pub mod Display
