-- ===== src/Vmm/Qemu/Machine.antt =====
-- `QemuHypervisor` and the start of a `QemuMachine`, crates/mirum-vm-vmm/src/backend/qemu/mod.rs: the
-- machine that `create` makes, the ports that `start` takes and the command that it runs.
pub mod Ports
pub mod Valid
pub mod Joined
pub mod Drives
use mirum.Base.{
  ℕ, String, ◌<>◌, Bool, true, false, Option, none, some, List, [], ◌∷◌, ◌++◌, Result, ok, err, any,
  ◌=s=◌, ◌||◌, not, ◌==◌, if◌then◌else◌,
}
use mirum.Base.Text.{codes, is_absolute}
use mirum.Hmi.Json.{Json}
use mirum.Hmi.Types.{Boot, BootLinux, Disk, Access, qga, Architecture, MachineImage, boot_disk}
use mirum.Hmi.Validate.{protocol}
use mirum.Vmm.Types.{Error, unsupported, invalid_image, Settings}
use mirum.Vmm.Qemu.Cli.{
  Arch, Accel, tcg, kvm, Command, nic, user, virtio, unattached, virtio_blk_pci, virtio_rng_pci,
  virtio_balloon, binary, machine_type, tcg_cpu_model,
}

-- The ports that `start` chooses.
pub record ChosenPorts : Type 0 where
  pub qmp : ℕ
  pub qga : Option ℕ
  pub console : ℕ

pub data QemuBoot : Type 0 where
  bios : QemuBoot
  linux : BootLinux → QemuBoot

-- Without the state of the process, which `create` leaves empty.
pub record QemuMachine : Type 0 where
  pub name : Option String
  pub dir : String
  pub arch : Architecture
  pub settings : Settings
  pub disk : Disk
  pub boot : QemuBoot
  pub qga : Bool

-- A directory that is not empty and does not end in a separator.
unfoldable pub needs_separator : List ℕ → Bool
needs_separator [] = false
needs_separator (c ∷ []) = not (c == b'/')
needs_separator (c ∷ d ∷ l) = needs_separator (d ∷ l)

-- `Path::join`.
unfoldable pub join : String → String → String
unfolding needs_separator
join dir path =
    if is_absolute path
    then path
    else if needs_separator (codes dir)
    then dir <> "/" <> path
    else dir <> path

unfoldable pub supports : {V : Type 0} → Boot V → Bool
supports (Boot.bios b) = true
supports (Boot.linux b) = true
supports _ = false

unfoldable pub find_disk : List Disk → String → Option Disk
find_disk [] id = none
find_disk (d ∷ ds) id = let rest = find_disk ds id in if d.id =s= id then some d else rest

abbrev pub is_qga : {V : Type 0} → Access V → Bool
is_qga (qga kind) = true
is_qga _ = false

unfoldable pub cannot_boot : String → Error
cannot_boot protocol = unsupported ("qemu backend cannot boot protocol '" <> protocol <> "'")

module _ (J : Json) where
  open J use {Value}

  unfoldable pub qemu_boot : Boot Value → Result Error QemuBoot
  qemu_boot (Boot.bios b) = ok bios
  qemu_boot (Boot.linux b) = ok (linux b)
  qemu_boot (Boot.uefi b) = err (cannot_boot (protocol J (Boot.uefi b)))
  qemu_boot (Boot.unknown b) = err (cannot_boot (protocol J (Boot.unknown b)))

  unfoldable pub machine_of :
      Option Disk
      → Result Error QemuBoot
      → Option String
      → MachineImage Value
      → String
      → Boot Value
      → Settings
      → Result Error QemuMachine
  machine_of none qemu name image dir boot settings =
      err (invalid_image ("boot entry references unknown disk '" <> boot_disk boot <> "'"))
  machine_of (some disk) (err e) name image dir boot settings = err e
  machine_of (some disk) (ok qemu) name image dir boot settings = ok record {
    name = name;
    dir = dir;
    arch = image.system.architecture;
    settings = settings;
    disk = disk;
    boot = qemu;
    qga = any is_qga image.machine.access;
  }

  unfoldable pub create :
      Option String → MachineImage Value → String → Boot Value → Settings → Result Error QemuMachine
  create name image dir boot settings =
      machine_of (find_disk image.disks (boot_disk boot)) (qemu_boot boot) name image dir boot
        settings

-- `sys_arch` of `start`.
unfoldable pub sys_arch : Architecture → Arch
sys_arch Architecture.amd64 = Arch.amd64
sys_arch Architecture.arm64 = Arch.arm64
sys_arch Architecture.loong64 = Arch.loong64
sys_arch Architecture.ppc64le = Arch.ppc64le
sys_arch Architecture.riscv64 = Arch.riscv64
sys_arch Architecture.s390x = Arch.s390x

-- The command before `match &self.boot`; the host has KVM for the machine or not.
unfoldable pub base_command : QemuMachine → Bool → Command
base_command m has_kvm = record {
  binary = binary (sys_arch m.arch);
  machine = machine_type (sys_arch m.arch);
  cpu = some (if has_kvm then "host" else tcg_cpu_model (sys_arch m.arch));
  accel = some (if has_kvm then kvm else tcg);
  memory_mib = m.settings.ram;
  smp = m.settings.cpu;
  display_none = true;
  nets = nic "virtio" ∷ user m.settings.port_forwards ∷ [];
  drives = [];
  devices = virtio_rng_pci ∷ virtio_balloon ∷ [];
  kernel = none;
  initrd = none;
  append = none;
  pidfile = none;
  qmp_port = none;
  qga_port = none;
  console = none;
}

unfoldable pub with_boot : QemuMachine → QemuBoot → Command → Command
with_boot m bios c = record c {
  drives = record { file = join m.dir m.disk.path; snapshot = true; interface = virtio } ∷ [];
}
with_boot m (linux l) c = record c {
  drives =
      record { file = join m.dir m.disk.path; snapshot = true; interface = unattached "root" } ∷ [];
  devices = c.devices ++ virtio_blk_pci "root" ∷ [];
  kernel = some (join m.dir l.kernel.path);
  initrd = some (join m.dir l.initrd.path);
  append = some l.cmdline;
}

-- The command that `start` runs, with its ports.
unfoldable pub start_command : QemuMachine → Bool → ChosenPorts → Command
unfolding base_command with_boot
start_command m has_kvm ports = record (with_boot m m.boot (base_command m has_kvm)) {
  pidfile = some (join m.dir "qemu.pid");
  qmp_port = some ports.qmp;
  qga_port = ports.qga;
  console = some (ports.console, join m.dir "console.log");
}
