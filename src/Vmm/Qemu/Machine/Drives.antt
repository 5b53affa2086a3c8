-- ===== src/Vmm/Qemu/Machine/Drives.antt =====
-- The drives of the command that `start` of crates/mirum-vm-vmm/src/backend/qemu/mod.rs runs, for a
-- machine of a validated image.
use mirum.Base.{
  ℕ, String, ◌≡◌, refl, ap, ◌∙◌, subst, Bool, true, false, Option, none, some, List, [], ◌∷◌, ◌++◌,
  All, length, Result, ok, err, if◌then◌else◌, ◌=s=◌,
}
use mirum.Base.Text.{components}
use mirum.Vmm.Qemu.Machine.Joined.{components-join}
use mirum.Hmi.Json.{Json}
use mirum.Hmi.Types.{Boot, Disk, MachineImage, boot_disk}
use mirum.Hmi.Spec.{IsValidDisk}
use mirum.Hmi.Decode.{from_json, from_json_iff}
use mirum.Vmm.Types.{Error, Settings}
use mirum.Vmm.Qemu.Cli.{Drive}
use mirum.Vmm.Qemu.Machine.{
  QemuBoot, bios, linux, QemuMachine, ChosenPorts, find_disk, qemu_boot, machine_of, create, join,
  base_command, with_boot, start_command,
}

All-find_disk :
    (P : Disk → Type 0) (ds : List Disk) (id : String) {d : Disk}
    → All P ds
    → find_disk ds id ≡ some d
    → P d
unfolding find_disk
All-find_disk P [] id h e = cc
All-find_disk P (x ∷ ds) id {d} h e = go (x.id =s= id) e (All-find_disk P ds id h.1)
  where
    same : some x ≡ some d → x ≡ d
    same k = cc

    go :
        (s : Bool)
        → (if s then some x else find_disk ds id) ≡ some d
        → (find_disk ds id ≡ some d → P d)
        → P d
    go true e ih = subst P (same e) h.0
    go false e ih = ih e

-- A drive is a throwaway overlay over the file that the path leads to from the directory.
abbrev pub IsOverlay : String → String → Drive → Type 0
IsOverlay dir path d = (d.snapshot ≡ true) × (components d.file ≡ components dir ++ components path)

module _ (J : Json) where
  open J use {Value}

  made :
      (o : Option Disk) (q : Result Error QemuBoot) (name : Option String)
      (image : MachineImage Value) (dir : String) (boot : Boot Value) (settings : Settings)
      {m : QemuMachine}
      → machine_of J o q name image dir boot settings ≡ ok m
      → (o ≡ some m.disk) × (m.dir ≡ dir)
  unfolding machine_of
  made none q name image dir boot settings h = cc
  made (some d) (err e) name image dir boot settings h = cc
  made (some d) (ok q) name image dir boot settings {m} h =
      subst (λ (n : QemuMachine). (some d ≡ some n.disk) × (n.dir ≡ dir)) (same h) (refl, refl)
    where
      same : {n : QemuMachine} → ◌≡◌ {A = Result Error QemuMachine} (ok n) (ok m) → n ≡ m
      same k = cc

  drives-IsOverlay :
      (m : QemuMachine) (dir : String) (has_kvm : Bool) (ports : ChosenPorts)
      → components (join m.dir m.disk.path) ≡ components dir ++ components m.disk.path
      → let drives = (start_command m has_kvm ports).drives in
        (length drives ≡ 1) × All (IsOverlay dir m.disk.path) drives
  unfolding start_command
  drives-IsOverlay m dir has_kvm ports e = go m.boot
    where
      go :
          (b : QemuBoot)
          → let drives = (with_boot m b (base_command m has_kvm)).drives in
            (length drives ≡ 1) × All (IsOverlay dir m.disk.path) drives
      go bios = (refl, ((refl, e), tt))
      go (linux l) = (refl, ((refl, e), tt))

  -- The command of a machine that `create` has made in a directory of an image that `from_json` has
  -- returned has one drive, a throwaway overlay over a file, whose path has the components of the
  -- directory and then those of the path of the machine's disk, whatever the host and the ports are.
  pub start_command-IsOverlay :
      (bytes : List ℕ) (image : MachineImage Value) (name : Option String) (dir : String)
      (boot : Boot Value) (settings : Settings) (m : QemuMachine) (has_kvm : Bool)
      (ports : ChosenPorts)
      → from_json J bytes ≡ ok image
      → create J name image dir boot settings ≡ ok m
      → let drives = (start_command m has_kvm ports).drives in
        (length drives ≡ 1) × All (IsOverlay dir m.disk.path) drives
  unfolding create
  start_command-IsOverlay bytes image name dir boot settings m has_kvm ports decoded created =
      let (h, read, version, kind, parsed, valid) = (from_json_iff J bytes image).0 decoded in
      let (found, place) =
        made (find_disk image.disks (boot_disk boot)) (qemu_boot J boot) name image dir boot
          settings created in
      let good = All-find_disk IsValidDisk image.disks (boot_disk boot) valid.disks found in
      drives-IsOverlay m dir has_kvm ports (
        ap (λ d. components (join d m.disk.path)) place ∙ components-join dir m.disk.path good.path)
