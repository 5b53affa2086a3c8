-- ===== src/Vmm/Qemu.antt =====
-- crates/mirum-vm-vmm/src/backend/qemu: the hypervisor, its command line and its two channels to a
-- guest.
pub mod Cli
pub mod Machine
pub mod Qmp
pub mod Qga
pub mod Supervise
pub mod Outside
pub mod Session
pub mod Lifecycle
