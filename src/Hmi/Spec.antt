-- ===== src/Hmi/Spec.antt =====
-- What a valid image is, said without the code: crates/mirum-vm-hmi/src/lib.rs as a contract.
use mirum.Base.{
  String, ◌≡◌, ◌≤◌, ◌<◌, true, false, Option, none, some, List, [], ◌∷◌, All, Distinct, any, all,
  length, contains, is_empty,
}
use mirum.Base.Text.{codes, strip_prefix, is_blank, is_ascii_hexdigit, components, is_normal}
use mirum.Hmi.Types.{
  Digest, ResourceRange, FileRef, Boot, bios, uefi, linux, unknown, System, Disk, Access, ssh,
  Network, dhcp, static, Machine, MachineImage, schema_version, machine_image_kind,
  boot_linux_direct, boot_firmware_disk_bios, boot_firmware_disk_uefi, boot_disk, is_recognized,
  is_recognized_access, referenced_paths,
}

-- `sha256:` and 64 hexadecimal digits.
abbrev pub IsDigest : Digest → Type 0
IsDigest digest =
    (hex : String) × (strip_prefix "sha256:" digest ≡ some hex)
    × (length (codes hex) ≡ 64)
    × (all is_ascii_hexdigit (codes hex) ≡ true)

-- Every component names a file or directory below the one that the path starts from.
abbrev pub IsBelow : String → Type 0
IsBelow path = (path ≡ "" → ⊥) × (all is_normal (components path) ≡ true)

pub record IsValidRange (r : ResourceRange) : Type 0 where
  pub positive : 0 < r.minimum
  pub ordered : r.minimum ≤ r.default

pub record IsValidFile (r : FileRef) : Type 0 where
  pub path : IsBelow r.path
  pub digest : IsDigest r.digest

abbrev pub IsValidBoot : {V : Type 0} → Boot V → Type 0
IsValidBoot (bios b) = (b.protocol ≡ boot_firmware_disk_bios) × (is_blank b.disk ≡ false)
IsValidBoot (uefi b) = (b.protocol ≡ boot_firmware_disk_uefi) × (is_blank b.disk ≡ false)
IsValidBoot (linux b) =
    (b.protocol ≡ boot_linux_direct)
    × (is_blank b.disk ≡ false)
    × IsValidFile b.kernel
    × IsValidFile b.initrd
    × (is_blank b.cmdline ≡ false)
IsValidBoot (unknown b) = Unit

abbrev pub IsValidName : Option String → Type 0
IsValidName none = Unit
IsValidName (some name) = is_blank name ≡ false

pub record IsValidSystem (s : System) : Type 0 where
  pub os : is_blank s.os ≡ false
  pub name : IsValidName s.name
  pub version : is_blank s.version ≡ false

pub record IsValidDisk (d : Disk) : Type 0 where
  pub id : is_blank d.id ≡ false
  pub path : IsBelow d.path
  pub digest : IsDigest d.digest
  pub virt_size : 0 < d.virt_size
  pub disk_size : 0 < d.disk_size

abbrev pub IsValidAccess : {V : Type 0} → Access V → Type 0
IsValidAccess (ssh a) = (0 < a.port) × (is_blank a.user ≡ false) × (is_blank a.auth ≡ false)
IsValidAccess _ = Unit

abbrev pub IsValidNetwork : Network → Type 0
IsValidNetwork dhcp = Unit
IsValidNetwork (static n) = (is_blank n.address ≡ false) × (is_blank n.gateway ≡ false)

-- Access may be left out, and otherwise one of its entries must be of a known kind.
abbrev pub SomeAccess : {V : Type 0} → List (Access V) → Type 0
SomeAccess [] = Unit
SomeAccess (a ∷ as') = any is_recognized_access (a ∷ as') ≡ true

pub record IsValidMachine {V : Type 0} (m : Machine V) : Type 0 where
  pub cpu : IsValidRange m.cpu
  pub ram : IsValidRange m.ram
  pub some_boot : any is_recognized m.boot ≡ true
  pub boot : All IsValidBoot m.boot
  pub some_access : SomeAccess m.access
  pub access : All IsValidAccess m.access
  pub network : IsValidNetwork m.network

-- A recognized entry starts from a disk of the image, and a Linux kernel only a Linux guest.
abbrev pub Refers : {V : Type 0} → String → List String → Boot V → Type 0
Refers os ids (unknown b) = Unit
Refers os ids (linux b) = (contains ids b.disk ≡ true) × (os ≡ "linux")
Refers os ids b = contains ids (boot_disk b) ≡ true

-- The protocols of the recognized entries.
abbrev pub protocols : {V : Type 0} → List (Boot V) → List String
protocols [] = []
protocols (bios b ∷ bs) = b.protocol ∷ protocols bs
protocols (uefi b ∷ bs) = b.protocol ∷ protocols bs
protocols (linux b ∷ bs) = b.protocol ∷ protocols bs
protocols (unknown b ∷ bs) = protocols bs

abbrev pub disk_ids : List Disk → List String
disk_ids [] = []
disk_ids (d ∷ ds) = d.id ∷ disk_ids ds

pub record IsValid {V : Type 0} (image : MachineImage V) : Type 0 where
  pub version : image.schema_version ≡ schema_version
  pub kind : image.kind ≡ machine_image_kind
  pub system : IsValidSystem image.system
  pub machine : IsValidMachine image.machine
  pub some_disk : is_empty image.disks ≡ false
  pub disks : All IsValidDisk image.disks
  pub ids : Distinct (disk_ids image.disks)
  pub boots : All (Refers image.system.os (disk_ids image.disks)) image.machine.boot
  pub protocols : Distinct (protocols image.machine.boot)
  pub paths : Distinct (referenced_paths image)
