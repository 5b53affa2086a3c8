-- ===== src/Tests/Machines.antt =====
-- The theorems on monitors, the qemu backend and `cmd_run`, at the sample and at small inputs.
use mirum.Base.{
  ℕ, ◌<◌, ◌≤◌, ◌+◌, ◌*◌, ◌%◌, String, ◌≡◌, refl, true, false, some, none, [], ◌∷◌, All, arith, ok,
  err,
}
use mirum.Base.{◌=s=◌, if◌then◌else◌}
use mirum.Hmi.Json.{Json}
use mirum.Vmm.Types.{io, Settings, Hypervisor}
use mirum.Vmm.Monitor.{choose}
use mirum.Vmm.Monitor.Choice.{IsFirst, choose-IsFirst}
use mirum.Vmm.Qemu.Machine.{QemuMachine, supports, create}
use mirum.Vmm.Qemu.Machine.Drives.{IsOverlay, start_command-IsOverlay}
use mirum.Vmm.Qemu.Machine.{linux, find_disk, qemu_boot, machine_of, start_command}
use mirum.Base.{length}
use mirum.Hmi.Types.{amd64}
use mirum.Tests.Samples.{root_disk, direct_boot}
use mirum.Vmm.Qemu.Qmp.{Wire}
use mirum.Base.{pos}
use mirum.Vmm.Qemu.Qga.{status_of, code, code-status_of}
use mirum.Run.{make_machine}
use mirum.Run.Chosen.{make_machine-from_json}
use mirum.Tests.Samples.{json, image, linux_boot, from_json-image}

abbrev qemu : Hypervisor String QemuMachine
qemu = record { id = 1; supports = supports; create = create json }

abbrev other : Hypervisor String QemuMachine
other = record { id = 2; supports = λ b. false; create = λ n i d b s. err io }

choose-IsFirst_example :
    IsFirst (other ∷ qemu ∷ []) image.machine.boot (choose (other ∷ qemu ∷ []) image.machine.boot)
choose-IsFirst_example = choose-IsFirst (other ∷ qemu ∷ []) image.machine.boot

abbrev pub two_cpus : Settings
two_cpus = record { cpu = 2; ram = 1024; port_forwards = (2222, 22) ∷ [] }

abbrev pub machine : QemuMachine
machine = record {
  name = some "vm";
  dir = "/images";
  arch = amd64;
  settings = two_cpus;
  disk = root_disk;
  boot = linux direct_boot;
  qga = false;
}

start_command-IsOverlay_example :
    let drives =
      (start_command machine true record { qmp = 5000; qga = none; console = 5001 }).drives in
    (length drives ≡ 1) × All (IsOverlay "/images" "root.qcow2") drives
start_command-IsOverlay_example =
    start_command-IsOverlay json [] image (some "vm") "/images" linux_boot two_cpus machine true
      (record { qmp = 5000; qga = none; console = 5001 }) from_json-image
      (unfold create machine_of find_disk qemu_boot in refl)

make_machine-from_json_example :
    (m : QemuMachine) × (make_machine json [] "/scratch" 2222 ≡ ok m)
    × (m.settings.cpu ≡ 2)
    × (0 < m.settings.cpu)
    × (1 ≤ m.settings.cpu)
    × (m.settings.ram * 1048576 ≤ 2097152)
    × (2097152 < (m.settings.ram + 1) * 1048576)
make_machine-from_json_example =
    make_machine-from_json json [] image "/scratch" 2222 from_json-image (unfold supports in refl)
      (omega arith)

-- A line is its own value, and "event" is one.
abbrev pub line_json : Json
line_json = record {
  Value = String;
  get = λ v key.
      if v =s= "event"
      then if key =s= "event" then some v else none
      else if key =s= "return"
      then some v
      else none;
  as_str = some;
  raw_boot = json.raw_boot;
  raw_ssh = json.raw_ssh;
  header = json.header;
  image = json.image;
}

abbrev pub wire : Wire line_json
wire = record { from_str = some; to_text = λ v. v }

code-status_of_example :
    (status : ℕ) × (status_of (some (pos 256)) none ≡ ok status) × (code status ≡ some (256 % 256))
code-status_of_example = code-status_of 256 none (omega arith)
