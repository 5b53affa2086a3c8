-- ===== src/Hmi/Valid.antt =====
-- `MachineImage::validate` accepts exactly the valid images, and what that gives its callers.
use mirum.Base.{
  String, ◌≡◌, ◌↔◌, true, false, List, [], ◌∷◌, arith, ok, All, contains, fresh, eq_iff, is_empty,
}
use mirum.Hmi.Types.{
  Boot, bios, uefi, linux, unknown, MachineImage, schema_version, machine_image_kind,
  all_boot_paths, disk_paths, referenced_paths,
}
use mirum.Hmi.Json.{Json}
use mirum.Hmi.Validation.{no_issues, finish, Checks, Checks-error_if, Checks-then, finish-Checks}
use mirum.Hmi.Validate.{check_disks, nothing_seen, check_parts, collect, validate}
use mirum.Hmi.Spec.{
  IsValidSystem, IsValidMachine, IsValidDisk, Refers, protocols, disk_ids, IsValid,
}
use mirum.Hmi.Distinct.{insert_all, contains-insert_all_nil, fresh-append, fresh-nil_iff}
use mirum.Hmi.Loops.{check_disks_sets, check_disks_clean, check_boots_clean}
use mirum.Hmi.Parts.{Checks-system, Checks-machine}

module _ (J : Json) where
  open J use {Value}

  Refers-insert_all :
      (os : String) (ids : List String) (bs : List (Boot Value))
      → All (Refers os (insert_all ids [])) bs ↔ All (Refers os ids) bs
  Refers-insert_all os ids [] = (λ h. h, λ h. h)
  Refers-insert_all os ids (b ∷ bs) =
      let r = Refers-insert_all os ids bs in
      let o = one b in (λ h. (o.0 h.0, r.0 h.1), λ h. (o.1 h.0, r.1 h.1))
    where
      same : (s : String) → contains (insert_all ids []) s ≡ contains ids s
      same s = contains-insert_all_nil ids s

      one : (b : Boot Value) → Refers os (insert_all ids []) b ↔ Refers os ids b
      one (bios b) = rw (same b.disk) (λ h. h, λ h. h)
      one (uefi b) = rw (same b.disk) (λ h. h, λ h. h)
      one (linux b) = rw (same b.disk) (λ h. h, λ h. h)
      one (unknown b) = (λ h. h, λ h. h)

  -- Everything that `validate` collects, against the specification.
  Checks-collect :
      (image : MachineImage Value)
      → Checks (collect J image) (
          IsValidSystem image.system
          × IsValidMachine image.machine
          × (is_empty image.disks ≡ false)
          × All IsValidDisk image.disks
          × (fresh [] (disk_ids image.disks) ≡ true)
          × All (Refers image.system.os (disk_ids image.disks)) image.machine.boot
          × (fresh [] (protocols image.machine.boot) ≡ true)
          × (fresh [] (referenced_paths image) ≡ true))
  unfolding collect referenced_paths check_parts check_disks
  Checks-collect image = record {
    at = λ v.
        let m =
          (Checks-then (Checks-then (Checks-system image.system _) (Checks-machine image.machine _))
              (Checks-error_if (is_empty image.disks) _)).at
            v in
        let s = nothing_seen (check_parts J image v) in
        let d = check_disks_clean 0 image.disks s in
        let e = check_disks_sets 0 image.disks s in
        let boots =
          check_boots_clean J image.system.os 0 image.machine.boot (check_disks 0 image.disks s) in
        let b = rw (e.0, e.1, e.2) at boots in
        let refer = Refers-insert_all image.system.os (disk_ids image.disks) image.machine.boot in
        let both = fresh-append (disk_paths image.disks) (all_boot_paths image.machine.boot) [] in
        (
          λ h.
              let r = b.0 h in
              let q = d.0 r.0 in
              let p = m.0 q.0 in
              (p.0, (p.1.0.0, p.1.0.1, p.1.1, q.1, q.2, refer.0 r.1, r.2, ground (arith, both))),
          λ h. b.1 (
            d.1 (m.1 (h.0, ((h.1.0, h.1.1), h.1.2)), h.1.3, h.1.4, ground (arith, both)),
            refer.1 h.1.5,
            h.1.6,
            ground (arith, both),
          ),
        );
  }

  pub validate-collect :
      (image : MachineImage Value)
      → (validate J image ≡ ok tt) ↔ (
          (image.schema_version ≡ schema_version)
          × (image.kind ≡ machine_image_kind)
          × (finish (collect J image no_issues) ≡ ok tt))
  unfolding validate
  validate-collect image = ground (arith, eq_iff image.kind machine_image_kind)

  -- `validate` accepts an image exactly when the image is valid: the schema version and the kind are
  -- the supported ones, every part is well formed, there is a disk and a supported boot entry, disk
  -- ids, boot protocols and file paths are pairwise different, and every supported boot entry names a
  -- disk of the image, a direct Linux boot moreover only in a Linux guest.
  pub validate_iff : (image : MachineImage Value) → (validate J image ≡ ok tt) ↔ IsValid image
  validate_iff image =
      let v = validate-collect image in
      let c = finish-Checks (Checks-collect image) in
      (
        λ h.
            let r = v.0 h in
            let q = c.0 r.2 in
            record {
              version = r.0;
              kind = r.1;
              system = q.0;
              machine = q.1;
              some_disk = q.2;
              disks = q.3;
              ids = (fresh-nil_iff _).0 q.4;
              boots = q.5;
              protocols = (fresh-nil_iff _).0 q.6;
              paths = (fresh-nil_iff _).0 q.7;
            },
        λ h. v.1 (
          h.version,
          h.kind,
          c.1 (
            h.system,
            h.machine,
            h.some_disk,
            h.disks,
            (fresh-nil_iff _).1 h.ids,
            h.boots,
            (fresh-nil_iff _).1 h.protocols,
            (fresh-nil_iff _).1 h.paths,
          ),
        ),
      )
