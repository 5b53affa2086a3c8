-- ===== src/Vmm/Qemu/Cli.antt =====
-- The command line of qemu, crates/mirum-vm-vmm/src/backend/qemu/cli.rs. Paths are texts.
pub mod Injected
pub mod Options
use mirum.Base.{ℕ, String, ◌<>◌, Bool, Option, none, some, List, [], ◌∷◌, ◌++◌, if◌then◌else◌}
use mirum.Base.Decimal.{decimal}

pub data Arch : Type 0 where
  amd64 arm64 loong64 ppc64le riscv64 s390x : Arch

suffix : Arch → String
suffix amd64 = "x86_64"
suffix arm64 = "aarch64"
suffix loong64 = "loongarch64"
suffix ppc64le = "ppc64le"
suffix riscv64 = "riscv64"
suffix s390x = "s390x"

unfoldable pub binary : Arch → String
unfolding suffix
binary arch = "qemu-system-" <> suffix arch

unfoldable pub machine_type : Arch → Option String
machine_type arm64 = some "virt"
machine_type riscv64 = some "virt"
machine_type ppc64le = some "pseries"
machine_type _ = none

unfoldable pub tcg_cpu_model : Arch → String
tcg_cpu_model amd64 = "qemu64"
tcg_cpu_model arm64 = "cortex-a53"
tcg_cpu_model loong64 = "la464"
tcg_cpu_model ppc64le = "power9"
tcg_cpu_model riscv64 = "rv64"
tcg_cpu_model s390x = "max"

pub data Accel : Type 0 where
  tcg kvm : Accel

pub data NetBackend : Type 0 where
  nic : String → NetBackend
  user : List (ℕ × ℕ) → NetBackend

unfoldable pub hostfwds : List (ℕ × ℕ) → String
hostfwds [] = ""
hostfwds ((host, guest) ∷ rest) =
    ",hostfwd=tcp:127.0.0.1:" <> decimal host <> "-:" <> decimal guest <> hostfwds rest

unfoldable pub net_arg : NetBackend → String
net_arg (nic model) = "nic,model=" <> model
net_arg (user hostfwd) = "user" <> hostfwds hostfwd

pub data DriveInterface : Type 0 where
  virtio : DriveInterface
  unattached : String → DriveInterface

pub record Drive : Type 0 where
  pub file : String
  pub snapshot : Bool
  pub interface : DriveInterface

pub interface_arg : DriveInterface → String
interface_arg virtio = ",if=virtio"
interface_arg (unattached id) = ",id=" <> id <> ",if=none"

unfoldable pub drive_arg : Drive → String
unfolding interface_arg
drive_arg drive =
    "file="
    <> drive.file
    <> ",media=disk"
    <> (if drive.snapshot then ",snapshot=on" else "")
    <> interface_arg drive.interface

pub data Device : Type 0 where
  virtio_blk_pci : String → Device
  virtio_rng_pci virtio_balloon virtio_serial_pci : Device
  virt_serial_port : String → String → Device

unfoldable pub device_arg : Device → String
device_arg (virtio_blk_pci drive) = "virtio-blk-pci,drive=" <> drive
device_arg virtio_rng_pci = "virtio-rng-pci"
device_arg virtio_balloon = "virtio-balloon"
device_arg virtio_serial_pci = "virtio-serial-pci"
device_arg (virt_serial_port chardev name) =
    "virtserialport,chardev=" <> chardev <> ",name=" <> name

pub record Command : Type 0 where
  pub binary : String
  pub machine : Option String
  pub cpu : Option String
  pub accel : Option Accel
  pub memory_mib : ℕ
  pub smp : ℕ
  pub display_none : Bool
  pub nets : List NetBackend
  pub drives : List Drive
  pub devices : List Device
  pub kernel : Option String
  pub initrd : Option String
  pub append : Option String
  pub pidfile : Option String
  pub qmp_port : Option ℕ
  pub qga_port : Option ℕ
  pub console : Option (ℕ × String)

-- `argv.extend([flag, value])` when there is a value, and for each element.
unfoldable pub option_args : String → Option String → List String
option_args flag none = []
option_args flag (some value) = flag ∷ value ∷ []

unfoldable pub each_args {ℓ} : {A : Type ℓ} → String → (A → String) → List A → List String
each_args flag arg [] = []
each_args flag arg (a ∷ as') = flag ∷ arg a ∷ each_args flag arg as'

unfoldable pub accel_args : Option Accel → List String
accel_args (some kvm) = "-enable-kvm" ∷ []
accel_args _ = []

unfoldable pub qmp_args : Option ℕ → List String
qmp_args none = []
qmp_args (some port) = "-qmp" ∷ ("tcp:127.0.0.1:" <> decimal port <> ",server=on,wait=off") ∷ []

unfoldable pub qga_args : Option ℕ → List String
unfolding device_arg
qga_args none = []
qga_args (some port) =
    "-chardev"
    ∷ ("socket,id=qga0,host=127.0.0.1,port=" <> decimal port <> ",server=on,wait=off")
    ∷ "-device"
    ∷ device_arg virtio_serial_pci
    ∷ "-device"
    ∷ device_arg (virt_serial_port "qga0" "org.qemu.guest_agent.0")
    ∷ []

unfoldable pub console_args : Option (ℕ × String) → List String
console_args none = []
console_args (some (port, logfile)) =
    "-chardev"
    ∷ ("socket,id=console0,host=127.0.0.1,port="
        <> decimal port
        <> ",server=on,wait=off,logfile="
        <> logfile
        <> ",logappend=off")
    ∷ "-serial"
    ∷ "chardev:console0"
    ∷ []

unfoldable pub to_argv : Command → List String
to_argv c =
    (c.binary ∷ option_args "-machine" c.machine)
    ++ (option_args "-cpu" c.cpu
        ++ (accel_args c.accel
            ++ (("-m" ∷ decimal c.memory_mib ∷ "-smp" ∷ ("cpus=" <> decimal c.smp) ∷ [])
                ++ (each_args "-net" net_arg c.nets
                    ++ (each_args "-drive" drive_arg c.drives
                        ++ (each_args "-device" device_arg c.devices
                            ++ ((if c.display_none then "-display" ∷ "none" ∷ [] else [])
                                ++ (option_args "-kernel" c.kernel
                                    ++ (option_args "-initrd" c.initrd
                                        ++ (option_args "-append" c.append
                                            ++ (option_args "-pidfile" c.pidfile
                                                ++ (qmp_args c.qmp_port
                                                    ++ (qga_args c.qga_port
                                                        ++ console_args c.console)))))))))))))
