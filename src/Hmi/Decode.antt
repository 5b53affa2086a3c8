-- ===== src/Hmi/Decode.antt =====
-- `Boot::deserialize`, `Access::deserialize` and `MachineImage::from_json` of
-- crates/mirum-vm-hmi/src/lib.rs, over the decoders that `serde_json` provides.
use mirum.Base.{
  ℕ, String, ◌<>◌, ◌≡◌, ◌↔◌, ◌⊎◌, Bool, true, false, not, ◌||◌, Option, none, some, List, [], ◌∷◌,
  arith, Result, ok, err, ◌>>=◌, ◌>>◌, ok_or, map_err, is_some, eq_iff, ◌==◌, ◌=s=◌, if◌then◌else◌,
}
use mirum.Base.Decimal.{decimal}
use mirum.Hmi.Types.{
  Boot, bios, uefi, linux, unknown, Access, ssh, qga, MachineImage, schema_version,
  machine_image_kind, boot_linux_direct, boot_firmware_disk_bios, boot_firmware_disk_uefi,
  is_recognized,
}
use mirum.Hmi.Json.{RawBoot, RawSsh, Header, Json}
use mirum.Hmi.Validation.{ValidationError}
use mirum.Hmi.Validate.{str_field, protocol, validate}
use mirum.Hmi.Spec.{IsValid}
use mirum.Hmi.Valid.{validate_iff}

pub data ParseError : Type 0 where
  json : String → ParseError
  validation : ValidationError → ParseError

-- The common part of the two firmware arms.
has_linux_fields : RawBoot → Bool
has_linux_fields raw = is_some raw.kernel || is_some raw.initrd || is_some raw.cmdline

abbrev firmware_message : String
firmware_message = "firmware-disk boot must not contain kernel, initrd, or cmdline"

abbrev is_kind : Option String → Bool
is_kind none = false
is_kind (some kind) = kind =s= machine_image_kind

is_kind_iff : (kind : Option String) → (is_kind kind ≡ true) ↔ (kind ≡ some machine_image_kind)
is_kind_iff none = (λ h. cc, λ h. cc)
is_kind_iff (some kind) = ground (arith, eq_iff kind machine_image_kind)

module _ (J : Json) where
  open J use {Value, raw_boot, raw_ssh, header, image}

  -- The three arms of `Boot::deserialize` for the protocols that it knows.
  decode_bios : RawBoot → Result String (Boot Value)
  unfolding has_linux_fields
  decode_bios raw =
      if has_linux_fields raw
      then err firmware_message
      else ok (bios (record { protocol = boot_firmware_disk_bios; disk = raw.disk }))

  decode_uefi : RawBoot → Result String (Boot Value)
  unfolding has_linux_fields
  decode_uefi raw =
      if has_linux_fields raw
      then err firmware_message
      else ok (uefi (record { protocol = boot_firmware_disk_uefi; disk = raw.disk }))

  decode_linux : RawBoot → Result String (Boot Value)
  decode_linux raw = do
    kernel ← ok_or raw.kernel "missing field `kernel`"
    initrd ← ok_or raw.initrd "missing field `initrd`"
    cmdline ← ok_or raw.cmdline "missing field `cmdline`"
    ok (
        linux (record {
          protocol = boot_linux_direct;
          disk = raw.disk;
          kernel = kernel;
          initrd = initrd;
          cmdline = cmdline;
        }))

  -- `Boot::deserialize`, from the value on.
  unfoldable pub deserialize_boot : Value → Result String (Boot Value)
  unfolding decode_bios decode_uefi decode_linux
  deserialize_boot value =
      let protocol = str_field J value "protocol" in
      if protocol =s= boot_firmware_disk_bios
      then raw_boot value >>= decode_bios
      else if protocol =s= boot_firmware_disk_uefi
      then raw_boot value >>= decode_uefi
      else if protocol =s= boot_linux_direct
      then raw_boot value >>= decode_linux
      else ok (unknown value)

  decode_ssh : RawSsh → Access Value
  decode_ssh raw = ssh (record { kind = "ssh"; port = raw.port; user = raw.user; auth = raw.auth })

  -- `Access::deserialize`, from the value on.
  unfoldable pub deserialize_access : Value → Result String (Access Value)
  unfolding decode_ssh
  deserialize_access value =
      let kind = str_field J value "type" in
      if kind =s= "ssh"
      then raw_ssh value >>= (λ raw. ok (decode_ssh raw))
      else if kind =s= "qga"
      then ok (qga "qga")
      else ok (unknown value)

  -- `MachineImage::from_json`.
  unfoldable pub from_json : List ℕ → Result ParseError (MachineImage Value)
  from_json bytes = do
    h ← map_err json (header bytes)
    if not (h.schema_version == schema_version)
        then err (validation (("unsupported schemaVersion " <> decimal h.schema_version) ∷ []))
        else if not (is_kind h.kind)
        then err (validation (("kind must be '" <> machine_image_kind <> "'") ∷ []))
        else do i ← map_err json (image bytes); map_err validation (validate J i); ok i

  -- A decoded boot entry has the protocol that the value names, and it is recognized exactly when
  -- that protocol is one of the three that the crate knows.
  pub protocol-deserialize_boot :
      (value : Value) {b : Boot Value}
      → deserialize_boot value ≡ ok b
      → (protocol J b ≡ str_field J value "protocol")
        × ((is_recognized b ≡ true) ↔ (
            (str_field J value "protocol" ≡ boot_firmware_disk_bios)
            ⊎ ((str_field J value "protocol" ≡ boot_firmware_disk_uefi)
                ⊎ (str_field J value "protocol" ≡ boot_linux_direct))))
  unfolding deserialize_boot protocol
  protocol-deserialize_boot value {b} h = ground (
    arith,
    eq_iff (str_field J value "protocol") boot_firmware_disk_bios,
    eq_iff (str_field J value "protocol") boot_firmware_disk_uefi,
    eq_iff (str_field J value "protocol") boot_linux_direct,
  )

  from_json_parts :
      (bytes : List ℕ) (i : MachineImage Value)
      → from_json bytes ≡ ok i
      → (h : Header) × (header bytes ≡ ok h)
        × (h.schema_version ≡ schema_version)
        × (is_kind h.kind ≡ true)
        × (image bytes ≡ ok i)
        × (validate J i ≡ ok tt)
  unfolding from_json
  from_json_parts bytes i e = ground arith

  -- `from_json` returns an image exactly when the header that is read first has the supported schema
  -- version and kind, the whole document decodes to that image, and the image is valid.
  pub from_json_iff :
      (bytes : List ℕ) (i : MachineImage Value)
      → (from_json bytes ≡ ok i) ↔ (
          (h : Header) × (header bytes ≡ ok h)
          × (h.schema_version ≡ schema_version)
          × (h.kind ≡ some machine_image_kind)
          × (image bytes ≡ ok i)
          × IsValid i)
  unfolding from_json
  from_json_iff bytes i = (
    λ e.
        let (h, read, version, kind, decoded, valid) = from_json_parts bytes i e in
        (h, read, version, (is_kind_iff _).0 kind, decoded, (validate_iff J i).0 valid),
    λ (h, read, version, kind, decoded, valid).
        let v = (validate_iff J i).1 valid in let k = (is_kind_iff h.kind).1 kind in ground arith,
  )
