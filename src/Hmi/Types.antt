-- ===== src/Hmi/Types.antt =====
-- crates/mirum-vm-hmi/src/lib.rs: the data of a `config.json`. Integers are natural numbers, whose
-- widths the decoder checks; `serde_json::Value` is the parameter `V`.
use mirum.Base.{ℕ, String, Bool, true, false, Option, List, [], ◌∷◌, ◌++◌}

abbrev pub schema_version : ℕ
schema_version = 1

abbrev pub machine_image_kind : String
machine_image_kind = "MachineImage"

abbrev pub boot_linux_direct : String
boot_linux_direct = "linux/direct"

abbrev pub boot_firmware_disk_bios : String
boot_firmware_disk_bios = "firmware-disk/bios"

abbrev pub boot_firmware_disk_uefi : String
boot_firmware_disk_uefi = "firmware-disk/uefi"

pub data DiskFormat : Type 0 where
  qcow2 : DiskFormat

-- A transparent wrapper of a text in the source.
abbrev pub Digest : Type 0
Digest = String

pub record ResourceRange : Type 0 where
  pub minimum : ℕ
  pub default : ℕ

pub record FileRef : Type 0 where
  pub path : String
  pub digest : Digest

pub record BootBios : Type 0 where
  pub protocol : String
  pub disk : String

pub record BootUefi : Type 0 where
  pub protocol : String
  pub disk : String

pub record BootLinux : Type 0 where
  pub protocol : String
  pub disk : String
  pub kernel : FileRef
  pub initrd : FileRef
  pub cmdline : String

pub data Boot (V : Type 0) : Type 0 where
  bios : BootBios → Boot V
  uefi : BootUefi → Boot V
  linux : BootLinux → Boot V
  unknown : V → Boot V

pub data Architecture : Type 0 where
  amd64 arm64 loong64 ppc64le riscv64 s390x : Architecture

pub record System : Type 0 where
  pub os : String
  pub name : Option String
  pub version : String
  pub architecture : Architecture

pub record Disk : Type 0 where
  pub id : String
  pub format : DiskFormat
  pub path : String
  pub digest : Digest
  pub virt_size : ℕ
  pub disk_size : ℕ

pub record SshAccess : Type 0 where
  pub kind : String
  pub port : ℕ
  pub user : String
  pub auth : String

pub data Access (V : Type 0) : Type 0 where
  ssh : SshAccess → Access V
  qga : String → Access V
  unknown : V → Access V

pub record NetworkStatic : Type 0 where
  pub address : String
  pub gateway : String

pub data Network : Type 0 where
  dhcp : Network
  static : NetworkStatic → Network

pub record Machine (V : Type 0) : Type 0 where
  pub cpu : ResourceRange
  pub ram : ResourceRange
  pub boot : List (Boot V)
  pub access : List (Access V)
  pub network : Network

pub record MachineImage (V : Type 0) : Type 0 where
  pub schema_version : ℕ
  pub kind : String
  pub system : System
  pub machine : Machine V
  pub disks : List Disk

-- `disks.iter().map(|d| d.path)`.
abbrev pub disk_paths : List Disk → List String
disk_paths [] = []
disk_paths (d ∷ ds) = d.path ∷ disk_paths ds

module _ {V : Type 0} where
  -- `Boot::disk`.
  abbrev pub boot_disk : Boot V → String
  boot_disk (bios v) = v.disk
  boot_disk (uefi v) = v.disk
  boot_disk (linux v) = v.disk
  boot_disk (unknown v) = ""

  -- `Boot::is_recognized` and `Access::is_recognized`.
  abbrev pub is_recognized : Boot V → Bool
  is_recognized (unknown v) = false
  is_recognized _ = true

  abbrev pub is_recognized_access : Access V → Bool
  is_recognized_access (unknown v) = false
  is_recognized_access _ = true

  -- The files of one boot entry, in the order of `referenced_paths`.
  abbrev pub boot_paths : Boot V → List String
  boot_paths (linux v) = v.kernel.path ∷ v.initrd.path ∷ []
  boot_paths _ = []

  abbrev pub all_boot_paths : List (Boot V) → List String
  all_boot_paths [] = []
  all_boot_paths (b ∷ bs) = boot_paths b ++ all_boot_paths bs

  -- `MachineImage::referenced_paths`.
  unfoldable pub referenced_paths : MachineImage V → List String
  referenced_paths image = disk_paths image.disks ++ all_boot_paths image.machine.boot
