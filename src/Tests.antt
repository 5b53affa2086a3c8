-- ===== src/Tests.antt =====
-- Samples, and the theorems applied to them.
pub mod Samples
pub mod Images
pub mod Stores
pub mod Layers
pub mod Machines
pub mod Options
pub mod Servers
pub mod Lifecycles
pub mod Starts
pub mod Commands
