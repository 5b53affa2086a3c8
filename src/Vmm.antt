-- ===== src/Vmm.antt =====
-- crates/mirum-vm-vmm: hypervisors, the monitor that picks one, and the qemu backend.
pub mod Types
pub mod Monitor
pub mod Display
pub mod Qemu
