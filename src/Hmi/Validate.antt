-- ===== src/Hmi/Validate.antt =====
-- The `validate_into` methods and `MachineImage::validate` of crates/mirum-vm-hmi/src/lib.rs.
-- A method that takes `&mut Validation` returns the new one. Over each stands the type it belongs to.
use mirum.Base.{
  ℕ, suc, String, ◌<>◌, Bool, not, ◌&&◌, ◌||◌, Option, none, some, List, [], ◌∷◌, Result, err,
  length, all, any, is_empty, contains, ◌==◌, ◌=s=◌, ltb, if◌then◌else◌,
}
use mirum.Base.Text.{codes, strip_prefix, is_ascii_hexdigit}
use mirum.Base.Decimal.{decimal}
use mirum.Hmi.Types.{
  Digest, ResourceRange, FileRef, Boot, bios, uefi, linux, unknown, System, Disk, Access, ssh,
  Network, dhcp, static, Machine, MachineImage, schema_version, machine_image_kind,
  boot_linux_direct, boot_firmware_disk_bios, boot_firmware_disk_uefi, boot_disk, is_recognized,
  is_recognized_access,
}
use mirum.Hmi.Json.{Json}
use mirum.Hmi.Validation.{
  Validation, ValidationError, no_issues, error, error_if, required, path, finish,
}

-- `!hex.bytes().all(is_ascii_hexdigit)` or a wrong length. A text of hexadecimal digits has as many
-- bytes as characters.
unfoldable pub is_bad_hex : String → Bool
is_bad_hex hex = not (length (codes hex) == 64) || not (all is_ascii_hexdigit (codes hex))

-- Digest
unfoldable pub check_hex : Option String → String → Validation → Validation
check_hex none field v = error (field <> " must use sha256") v
check_hex (some hex) field v =
    error_if (is_bad_hex hex) (field <> " must contain 64 hexadecimal digits") v

unfoldable pub validate_digest : Digest → String → Validation → Validation
validate_digest digest field v = check_hex (strip_prefix "sha256:" digest) field v

-- ResourceRange
unfoldable pub validate_range : ResourceRange → String → Validation → Validation
validate_range r field v =
    error_if (ltb r.default r.minimum) (field <> ".default must be at least minimum")
      (error_if (r.minimum == 0) (field <> ".minimum must be greater than zero") v)

-- FileRef
unfoldable pub validate_file_ref : FileRef → String → Validation → Validation
validate_file_ref r field v =
    validate_digest r.digest (field <> ".digest") (path r.path (field <> ".path") v)

-- Boot
unfoldable pub validate_boot : {V : Type 0} → Boot V → String → Validation → Validation
validate_boot (bios b) field v = required b.disk (field <> ".disk") (
    error_if (not (b.protocol =s= boot_firmware_disk_bios))
      (field <> " BIOS protocol must be '" <> boot_firmware_disk_bios <> "'") v)
validate_boot (uefi b) field v = required b.disk (field <> ".disk") (
    error_if (not (b.protocol =s= boot_firmware_disk_uefi))
      (field <> " UEFI protocol must be '" <> boot_firmware_disk_uefi <> "'") v)
validate_boot (linux b) field v = required b.cmdline (field <> ".cmdline") (
    validate_file_ref b.initrd (field <> ".initrd") (
      validate_file_ref b.kernel (field <> ".kernel") (
        required b.disk (field <> ".disk") (
          error_if (not (b.protocol =s= boot_linux_direct))
            (field <> " direct Linux protocol must be '" <> boot_linux_direct <> "'") v))))
validate_boot (unknown b) field v = v

-- System
unfoldable pub validate_name : Option String → String → Validation → Validation
validate_name none field v = v
validate_name (some name) field v = required name field v

unfoldable pub validate_system : System → String → Validation → Validation
validate_system s field v =
    required s.version (field <> ".version")
      (validate_name s.name (field <> ".name") (required s.os (field <> ".os") v))

-- Disk
unfoldable pub validate_disk : Disk → String → Validation → Validation
validate_disk d field v =
    error_if (d.disk_size == 0) (field <> ".diskSize must be greater than zero") (
      error_if (d.virt_size == 0) (field <> ".virtSize must be greater than zero") (
        validate_digest d.digest (field <> ".digest")
          (path d.path (field <> ".path") (required d.id (field <> ".id") v))))

-- Access
unfoldable pub validate_access : {V : Type 0} → Access V → String → Validation → Validation
validate_access (ssh a) field v = required a.auth (field <> ".auth") (
    required a.user (field <> ".user")
      (error_if (a.port == 0) (field <> ".port must be greater than zero") v))
validate_access _ field v = v

-- Network
unfoldable pub validate_network : Network → String → Validation → Validation
validate_network dhcp field v = v
validate_network (static n) field v =
    required n.gateway (field <> ".gateway") (required n.address (field <> ".address") v)

-- `{field}[{index}]`
abbrev pub item : String → ℕ → String
item field index = field <> "[" <> decimal index <> "]"

module _ {V : Type 0} where
  -- The loops over `boot` and `access` of Machine, at the index of the list's head.
  unfoldable pub validate_boots : ℕ → List (Boot V) → String → Validation → Validation
  validate_boots index [] field v = v
  validate_boots index (b ∷ bs) field v =
      validate_boots (suc index) bs field (validate_boot b (item field index) v)

  unfoldable pub validate_accesses : ℕ → List (Access V) → String → Validation → Validation
  validate_accesses index [] field v = v
  validate_accesses index (a ∷ as') field v =
      validate_accesses (suc index) as' field (validate_access a (item field index) v)

  -- Machine
  unfoldable pub validate_machine : Machine V → String → Validation → Validation
  validate_machine m field v = validate_network m.network (field <> ".network") (
      validate_accesses 0 m.access (field <> ".access") (
        error_if (not (is_empty m.access) && not (any is_recognized_access m.access))
          (field <> ".access must contain at least one supported access method")
          (validate_boots 0 m.boot (field <> ".boot") (
            error_if (not (any is_recognized m.boot))
              (field <> ".boot must contain at least one supported boot protocol")
              (validate_range m.ram (field <> ".ram")
                (validate_range m.cpu (field <> ".cpu") v))))))

-- The variables of the two last loops of `MachineImage::validate`. Each set is the list of what was
-- inserted, the latest first, in which a text may stand twice.
pub record Seen : Type 0 where
  pub disk_ids : List String
  pub paths : List String
  pub boot_protocols : List String
  pub validation : Validation

-- Empty sets.
abbrev pub nothing_seen : Validation → Seen
nothing_seen v = record { disk_ids = []; paths = []; boot_protocols = []; validation = v }

-- One round of the loop over the disks.
unfoldable pub check_disk : ℕ → Disk → Seen → Seen
check_disk index d s = record s {
  disk_ids = d.id ∷ s.disk_ids;
  paths = d.path ∷ s.paths;
  validation = error_if (contains s.paths d.path) ("duplicate image path '" <> d.path <> "'") (
      error_if (contains s.disk_ids d.id) ("duplicate disk id '" <> d.id <> "'")
        (validate_disk d (item "disks" index) s.validation));
}

unfoldable pub check_disks : ℕ → List Disk → Seen → Seen
check_disks index [] s = s
check_disks index (d ∷ ds) s = check_disks (suc index) ds (check_disk index d s)

-- `for path in [&linux.kernel.path, &linux.initrd.path]`.
unfoldable pub check_paths : List String → Seen → Seen
check_paths [] s = s
check_paths (p ∷ ps) s = check_paths ps (record s {
  paths = p ∷ s.paths;
  validation = error_if (contains s.paths p) ("duplicate image path '" <> p <> "'") s.validation;
})

module _ (J : Json) where
  open J use {Value, get, as_str}

  -- `value.get(key).and_then(as_str).unwrap_or("")`.
  unfoldable pub str_field : Value → String → String
  str_field value key = elim (get value key) [
    | none ↦ ""
    | some v ↦ elim (as_str v) [ none ↦ "" | some s ↦ s ]
  ]

  -- `Boot::protocol`.
  unfoldable pub protocol : Boot Value → String
  unfolding str_field
  protocol (bios b) = b.protocol
  protocol (uefi b) = b.protocol
  protocol (linux b) = b.protocol
  protocol (unknown value) = str_field value "protocol"

  -- The part of a round that every recognized entry goes through.
  unfoldable pub check_reference : ℕ → Boot Value → Seen → Seen
  check_reference index b s = record s {
    boot_protocols = protocol b ∷ s.boot_protocols;
    validation =
        error_if (not (contains s.disk_ids (boot_disk b)))
          (item "machine.boot" index <> " references unknown disk '" <> boot_disk b <> "'")
          (error_if (contains s.boot_protocols (protocol b))
            ("duplicate boot protocol '" <> protocol b <> "'") s.validation);
  }

  -- One round of the loop over the boot entries.
  unfoldable pub check_boot : String → ℕ → Boot Value → Seen → Seen
  check_boot os index (unknown value) s = s
  check_boot os index (linux b) s =
      let s' = check_reference index (linux b) s in
      check_paths (b.kernel.path ∷ b.initrd.path ∷ []) (record s' {
        validation =
            error_if (not (os =s= "linux"))
              (item "machine.boot" index
                <> " protocol '"
                <> boot_linux_direct
                <> "' requires system.os 'linux'")
              s'.validation;
      })
  check_boot os index b s = check_reference index b s

  unfoldable pub check_boots : String → ℕ → List (Boot Value) → Seen → Seen
  check_boots os index [] s = s
  check_boots os index (b ∷ bs) s = check_boots os (suc index) bs (check_boot os index b s)

  -- The checks of `MachineImage::validate` before its loops.
  unfoldable pub check_parts : MachineImage Value → Validation → Validation
  check_parts image v =
      error_if (is_empty image.disks) "disks must not be empty"
        (validate_machine image.machine "machine" (validate_system image.system "system" v))

  -- What `MachineImage::validate` does between its first tests and `finish`.
  unfoldable pub collect : MachineImage Value → Validation → Validation
  collect image v =
      (check_boots image.system.os 0 image.machine.boot
        (check_disks 0 image.disks (nothing_seen (check_parts image v)))).validation

  -- MachineImage
  unfoldable pub validate : MachineImage Value → Result ValidationError (Unit {0})
  validate image =
      if not (image.schema_version == schema_version)
      then err (("unsupported schemaVersion " <> decimal image.schema_version) ∷ [])
      else if not (image.kind =s= machine_image_kind)
      then err (("kind must be '" <> machine_image_kind <> "'") ∷ [])
      else finish (collect image no_issues)
