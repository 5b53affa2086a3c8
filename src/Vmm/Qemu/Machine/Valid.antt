-- ===== src/Vmm/Qemu/Machine/Valid.antt =====
-- What the validation of an image (crates/mirum-vm-hmi) promises to the qemu backend: `create` of
-- crates/mirum-vm-vmm/src/backend/qemu/mod.rs on an image that was decoded and validated.
use mirum.Base.{
  ℕ, String, ◌≡◌, refl, ap, subst, Bool, true, false, Option, none, some, List, [], ◌∷◌, ◌++◌, All,
  arith, eq_iff, Result, ok, err, contains, ◌=s=◌, if◌then◌else◌,
}
use mirum.Hmi.Json.{Json}
use mirum.Hmi.Types.{Boot, bios, uefi, linux, unknown, Disk, MachineImage, boot_disk}
use mirum.Hmi.Spec.{Refers, disk_ids}
use mirum.Hmi.Decode.{from_json, from_json_iff}
use mirum.Vmm.Types.{Error, Settings}
use mirum.Vmm.Qemu.Machine.{
  QemuBoot, QemuMachine, supports, find_disk, qemu_boot, machine_of, create,
}

All-middle {ℓ κ} :
    {A : Type ℓ} (P : A → Type κ) (xs : List A) {x : A} (ys : List A) → All P (xs ++ x ∷ ys) → P x
All-middle P [] ys h = h.0
All-middle P (y ∷ xs) ys h = All-middle P xs ys h.1

-- The disk that is found, with the disks around it.
abbrev IsFound : List Disk → String → Option Disk → Type 0
IsFound disks id none = ⊥
IsFound disks id (some d) = (before after : List Disk) × (disks ≡ before ++ d ∷ after) × (d.id ≡ id)

find_disk-IsFound :
    (disks : List Disk) (id : String)
    → contains (disk_ids disks) id ≡ true
    → IsFound disks id (find_disk disks id)
unfolding find_disk contains
find_disk-IsFound [] id h = cc
find_disk-IsFound (d ∷ ds) id h =
    go (d.id =s= id) refl (find_disk ds id) (λ k. find_disk-IsFound ds id k)
  where
    go :
        (s : Bool)
        → (d.id =s= id) ≡ s
        → (r : Option Disk) → (contains (disk_ids ds) id ≡ true → IsFound ds id r)
        → IsFound (d ∷ ds) id (if s then some d else r)
    go true e r k = ([], ds, refl, (eq_iff d.id id).0 e)
    go false e none k = k (ground (arith, h, e))
    go false e (some d') k =
        let (before, after, split, same) = k (ground (arith, h, e)) in
        (d ∷ before, after, ap (λ l. d ∷ l) split, same)

module _ (J : Json) where
  open J use {Value}

  named :
      (os : String) (ids : List String) (boot : Boot Value)
      → supports boot ≡ true
      → Refers os ids boot
      → contains ids (boot_disk boot) ≡ true
  unfolding supports
  named os ids (bios b) h r = r
  named os ids (linux b) h r = r.0
  named os ids (uefi b) h r = cc
  named os ids (unknown b) h r = cc

  qemu_boot-supports :
      (boot : Boot Value) → supports boot ≡ true → (b : QemuBoot) × (qemu_boot J boot ≡ ok b)
  unfolding supports qemu_boot
  qemu_boot-supports (bios b) h = (_, refl)
  qemu_boot-supports (linux b) h = (_, refl)
  qemu_boot-supports (uefi b) h = cc
  qemu_boot-supports (unknown b) h = cc

  -- Of an image that `from_json` has returned, every entry that the backend supports gives a machine:
  -- it is booted from the disk of the image whose id the entry names.
  pub create-from_json :
      (bytes : List ℕ) (image : MachineImage Value) (before : List (Boot Value)) (boot : Boot Value)
      (after : List (Boot Value)) (name : Option String) (dir : String) (settings : Settings)
      → from_json J bytes ≡ ok image
      → image.machine.boot ≡ before ++ boot ∷ after
      → supports boot ≡ true
      → (m : QemuMachine) × (create J name image dir boot settings ≡ ok m)
        × (m.disk.id ≡ boot_disk boot)
        × (m.settings ≡ settings)
        × (m.dir ≡ dir)
  unfolding create machine_of
  create-from_json bytes image before boot after name dir settings decoded split good =
      let (h, read, version, kind, parsed, valid) = (from_json_iff J bytes image).0 decoded in
      let refers =
        All-middle (Refers image.system.os (disk_ids image.disks)) before after
          (subst (All (Refers image.system.os (disk_ids image.disks))) split valid.boots) in
      go (find_disk image.disks (boot_disk boot))
        (find_disk-IsFound image.disks (boot_disk boot) (named _ _ boot good refers))
        (qemu_boot J boot) (qemu_boot-supports boot good)
    where
      go :
          (d : Option Disk)
          → IsFound image.disks (boot_disk boot) d
          → (q : Result Error QemuBoot) → (b : QemuBoot) × (q ≡ ok b)
          → (m : QemuMachine) × (machine_of J d q name image dir boot settings ≡ ok m)
            × (m.disk.id ≡ boot_disk boot)
            × (m.settings ≡ settings)
            × (m.dir ≡ dir)
      go none f q b = absurd f
      go (some d) f (err e) (b, h) = cc
      go (some d) (xs, ys, split', same) (ok q) b = (_, refl, same, refl, refl)
