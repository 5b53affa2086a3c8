-- ===== src/Hmi/Loops.antt =====
-- The two last loops of `MachineImage::validate` (crates/mirum-vm-hmi/src/lib.rs): what they leave
-- in their sets, and when they report nothing.
use mirum.Base.{
  ℕ, suc, String, ◌≡◌, refl, ◌↔◌, true, false, not, List, [], ◌∷◌, ◌++◌, arith, All, contains,
  fresh, eq_iff, ◌=s=◌,
}
use mirum.Hmi.Types.{
  Boot, bios, uefi, linux, unknown, Disk, all_boot_paths, boot_paths, disk_paths, boot_disk,
}
use mirum.Hmi.Json.{Json}
use mirum.Hmi.Validation.{is_clean, Checks-error_if, Checks-then}
use mirum.Hmi.Validate.{
  Seen, check_disk, check_disks, check_paths, check_reference, check_boot, check_boots, protocol,
}
use mirum.Hmi.Spec.{IsValidDisk, Refers, protocols, disk_ids}
use mirum.Hmi.Distinct.{insert_all, fresh-append}
use mirum.Hmi.Parts.{Checks-disk}

-- The loop over the disks, on its sets.
pub check_disks_sets :
    (index : ℕ) (ds : List Disk) (s : Seen)
    → ((check_disks index ds s).disk_ids ≡ insert_all (disk_ids ds) s.disk_ids)
      × ((check_disks index ds s).paths ≡ insert_all (disk_paths ds) s.paths)
      × ((check_disks index ds s).boot_protocols ≡ s.boot_protocols)
unfolding check_disks insert_all check_disk
check_disks_sets index [] s = (refl, refl, refl)
check_disks_sets index (d ∷ ds) s = check_disks_sets (suc index) ds (check_disk index d s)

check_disk_clean :
    (index : ℕ) (d : Disk) (s : Seen)
    → (is_clean (check_disk index d s).validation ≡ true) ↔ (
        (is_clean s.validation ≡ true)
        × IsValidDisk d
        × (contains s.disk_ids d.id ≡ false)
        × (contains s.paths d.path ≡ false))
unfolding check_disk
check_disk_clean index d s =
    let c =
      (Checks-then (Checks-then (Checks-disk d _) (Checks-error_if _ _)) (Checks-error_if _ _)).at
        s.validation in
    (λ h. let r = c.0 h in (r.0, r.1.0.0, r.1.0.1, r.1.1), λ h. c.1 (h.0, ((h.1, h.2), h.3)))

-- The loop over the disks, on the issues.
pub check_disks_clean :
    (index : ℕ) (ds : List Disk) (s : Seen)
    → (is_clean (check_disks index ds s).validation ≡ true) ↔ (
        (is_clean s.validation ≡ true)
        × All IsValidDisk ds
        × (fresh s.disk_ids (disk_ids ds) ≡ true)
        × (fresh s.paths (disk_paths ds) ≡ true))
unfolding check_disks fresh check_disk
check_disks_clean index [] s = (λ h. (h, tt, refl, refl), λ h. h.0)
check_disks_clean index (d ∷ ds) s = (
  λ h.
      let r = (check_disks_clean (suc index) ds (check_disk index d s)).0 h in
      let p = (check_disk_clean index d s).0 r.0 in (p.0, (p.1, r.1), ground arith, ground arith),
  λ h. (check_disks_clean (suc index) ds (check_disk index d s)).1 (
    (check_disk_clean index d s).1 (h.0, h.1.0, ground arith, ground arith),
    h.1.1,
    ground arith,
    ground arith,
  ),
)

check_paths_sets :
    (ps : List String) (s : Seen)
    → ((check_paths ps s).disk_ids ≡ s.disk_ids)
      × ((check_paths ps s).paths ≡ insert_all ps s.paths)
      × ((check_paths ps s).boot_protocols ≡ s.boot_protocols)
unfolding check_paths insert_all
check_paths_sets [] s = (refl, refl, refl)
check_paths_sets (p ∷ ps) s = check_paths_sets ps _

check_paths_clean :
    (ps : List String) (s : Seen)
    → (is_clean (check_paths ps s).validation ≡ true)
      ↔ ((is_clean s.validation ≡ true) × (fresh s.paths ps ≡ true))
unfolding check_paths fresh
check_paths_clean [] s = (λ h. (h, refl), λ h. h.0)
check_paths_clean (p ∷ ps) s =
    let c = (Checks-error_if (contains s.paths p) _).at s.validation in
    let rest = check_paths_clean ps _ in
    (
      λ h. let r = rest.0 h in let q = c.0 r.0 in (q.0, ground arith),
      λ h. rest.1 (c.1 (h.0, ground arith), ground arith),
    )

-- What one boot entry adds to the protocols.
abbrev own_protocol : {V : Type 0} → Boot V → List String
own_protocol b = protocols (b ∷ [])

protocols-cons :
    {V : Type 0} (b : Boot V) (bs : List (Boot V))
    → protocols (b ∷ bs) ≡ own_protocol b ++ protocols bs
protocols-cons (bios b) bs = refl
protocols-cons (uefi b) bs = refl
protocols-cons (linux b) bs = refl
protocols-cons (unknown b) bs = refl

module _ (J : Json) where
  open J use {Value}

  check_reference_clean :
      (index : ℕ) (b : Boot Value) (s : Seen)
      → (is_clean (check_reference J index b s).validation ≡ true) ↔ (
          (is_clean s.validation ≡ true)
          × (contains s.boot_protocols (protocol J b) ≡ false)
          × (contains s.disk_ids (boot_disk b) ≡ true))
  unfolding check_reference
  check_reference_clean index b s =
      let c = (Checks-then (Checks-error_if _ _) (Checks-error_if _ _)).at s.validation in
      (λ h. let r = c.0 h in (r.0, r.1.0, ground arith), λ h. c.1 (h.0, (h.1, ground arith)))

  check_boot_sets :
      (os : String) (index : ℕ) (b : Boot Value) (s : Seen)
      → ((check_boot J os index b s).disk_ids ≡ s.disk_ids)
        × ((check_boot J os index b s).paths ≡ insert_all (boot_paths b) s.paths)
        × ((check_boot J os index b s).boot_protocols
            ≡ insert_all (own_protocol b) s.boot_protocols)
  unfolding check_boot check_reference insert_all protocol check_paths
  check_boot_sets os index (bios b) s = (refl, refl, refl)
  check_boot_sets os index (uefi b) s = (refl, refl, refl)
  check_boot_sets os index (linux b) s = (refl, refl, refl)
  check_boot_sets os index (unknown b) s = (refl, refl, refl)

  check_boot_clean :
      (os : String) (index : ℕ) (b : Boot Value) (s : Seen)
      → (is_clean (check_boot J os index b s).validation ≡ true) ↔ (
          (is_clean s.validation ≡ true)
          × Refers os s.disk_ids b
          × (fresh s.boot_protocols (own_protocol b) ≡ true)
          × (fresh s.paths (boot_paths b) ≡ true))
  unfolding check_boot check_reference fresh protocol
  check_boot_clean os index (unknown b) s = (λ h. (h, tt, refl, refl), λ h. h.0)
  check_boot_clean os index (linux b) s =
      let c = check_reference_clean index (linux b) s in
      let o =
        (Checks-error_if (not (os =s= "linux")) _).at
          (check_reference J index (linux b) s).validation in
      let p = check_paths_clean (b.kernel.path ∷ b.initrd.path ∷ []) _ in
      (
        λ h.
            let r = p.0 h in
            let q = o.0 r.0 in
            let t = c.0 q.0 in (t.0, (t.2, ground (arith, eq_iff os "linux")), ground arith, r.1),
        λ h. p.1 (o.1 (c.1 (h.0, ground arith, h.1.0), ground (arith, eq_iff os "linux")), h.3),
      )
  check_boot_clean os index (bios b) s =
      let c = check_reference_clean index (bios b) s in
      (λ h. let r = c.0 h in (r.0, r.2, ground arith, refl), λ h. c.1 (h.0, ground arith, h.1))
  check_boot_clean os index (uefi b) s =
      let c = check_reference_clean index (uefi b) s in
      (λ h. let r = c.0 h in (r.0, r.2, ground arith, refl), λ h. c.1 (h.0, ground arith, h.1))

  pub check_boots_clean :
      (os : String) (index : ℕ) (bs : List (Boot Value)) (s : Seen)
      → (is_clean (check_boots J os index bs s).validation ≡ true) ↔ (
          (is_clean s.validation ≡ true)
          × All (Refers os s.disk_ids) bs
          × (fresh s.boot_protocols (protocols bs) ≡ true)
          × (fresh s.paths (all_boot_paths bs) ≡ true))
  unfolding check_boots fresh check_boot
  check_boots_clean os index [] s = (λ h. (h, tt, refl, refl), λ h. h.0)
  check_boots_clean os index (b ∷ bs) s =
      let e = check_boot_sets os index b s in
      let rest = check_boots_clean os (suc index) bs (check_boot J os index b s) in
      let rest' = rw (e.0, e.1, e.2) at rest in
      let c = check_boot_clean os index b s in
      rw (protocols-cons b bs, fresh-append (own_protocol b) (protocols bs))
        (
          λ h.
              let r = rest'.0 h in
              let q = c.0 r.0 in
              (
                q.0,
                (q.1, r.1),
                ground arith,
                ground (arith, fresh-append (boot_paths b) (all_boot_paths bs) s.paths),
              ),
          λ h. rest'.1 (
            c.1 (
              h.0,
              h.1.0,
              ground arith,
              ground (arith, fresh-append (boot_paths b) (all_boot_paths bs) s.paths),
            ),
            h.1.1,
            ground arith,
            ground (arith, fresh-append (boot_paths b) (all_boot_paths bs) s.paths),
          ),
        )
