-- ===== src/Oci.antt =====
-- crates/mirum-vm-oci: the local store of images, and images on their way to and from a registry.
pub mod Types
pub mod Index
pub mod Chunks
pub mod World
pub mod Storage
pub mod Layers
pub mod Images
pub mod Registry
pub mod RoundTrip
pub mod Display
pub mod Writers
pub mod Client
pub mod Described
pub mod Untagged
pub mod Tagging
