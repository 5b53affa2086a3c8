-- ===== src/Tests/Samples.antt =====
-- A valid image, decoders that give it, and external code: digests are texts of the bytes.
use mirum.Base.{
  ℕ, String, ◌<>◌, ◌≡◌, refl, true, false, none, some, List, [], ◌∷◌, ok, ◌=s=◌, if◌then◌else◌,
}
use mirum.Base.Decimal.{decimal}
use mirum.Base.{contains}
use mirum.Base.Text.{
  strip_prefix, components, is_absolute, is_ascii_hexdigit, is_blank, is_whitespace,
  later_components, path_components, push_segment, segment_component, segments,
}
use mirum.Hmi.Validation.{finish, error_if, error, is_unsafe_path, path, required}
use mirum.Hmi.Validate.{
  validate, collect, check_boots, check_boot, check_paths, check_reference, check_disks, check_disk,
  protocol, validate_disk, validate_digest, check_hex, is_bad_hex, check_parts, str_field,
  validate_access, validate_accesses, validate_boot, validate_boots, validate_file_ref,
  validate_machine, validate_name, validate_network, validate_range, validate_system,
}
use mirum.Hmi.Types.{BootLinux}
use mirum.Hmi.Types.{Boot, bios, linux, ssh, dhcp, Disk, qcow2, Architecture, MachineImage}
use mirum.Hmi.Json.{Json}
use mirum.Hmi.Decode.{from_json}
use mirum.Oci.World.{World, absent, External}

abbrev pub digest : String
digest = "sha256:0000000000000000000000000000000000000000000000000000000000000000"

abbrev pub bios_boot : Boot String
bios_boot = bios record { protocol = "firmware-disk/bios"; disk = "root" }

abbrev pub direct_boot : BootLinux
direct_boot = record {
  protocol = "linux/direct";
  disk = "root";
  kernel = record { path = "vmlinuz"; digest = digest };
  initrd = record { path = "initrd"; digest = digest };
  cmdline = "root=/dev/vda";
}

abbrev pub linux_boot : Boot String
linux_boot = linux direct_boot

abbrev pub root_disk : Disk
root_disk = record {
  id = "root";
  format = qcow2;
  path = "root.qcow2";
  digest = digest;
  virt_size = 10;
  disk_size = 5;
}

abbrev pub image : MachineImage String
image = record {
  schema_version = 1;
  kind = "MachineImage";
  system = record { os = "linux"; name = none; version = "13"; architecture = Architecture.amd64 };
  machine = record {
    cpu = record { minimum = 1; default = 2 };
    ram = record { minimum = 1048576; default = 2097152 };
    boot = bios_boot ∷ linux_boot ∷ [];
    access = ssh record { kind = "ssh"; port = 22; user = "root"; auth = "none" } ∷ [];
    network = dhcp;
  };
  disks = root_disk ∷ [];
}

-- A value is the text of its protocol.
abbrev pub json : Json
json = record {
  Value = String;
  get = λ v key. if key =s= "protocol" then some v else none;
  as_str = some;
  raw_boot = λ v. ok record { disk = "root"; kernel = none; initrd = none; cmdline = none };
  raw_ssh = λ v. ok record { port = 22; user = "root"; auth = "none" };
  header = λ bytes. ok record { schema_version = 1; kind = some "MachineImage" };
  image = λ bytes. ok image;
}

abbrev text_of : List ℕ → String
text_of [] = "d"
text_of (n ∷ ns) = decimal n <> ("-" <> text_of ns)

-- Manifests are not told apart.
abbrev pub external : External
external = record {
  encode_manifest = λ m. 1 ∷ 2 ∷ [];
  decode_manifest = λ bytes. none;
  sha256 = text_of;
  compress = some;
  decompress = some;
  is_reference = λ r. true;
}

abbrev pub nothing : World
nothing = record {
  blobs = λ n. none;
  temporaries = λ n. none;
  index = absent;
  images = λ n. false;
  hmi = λ d n. none;
  exported = λ n. none;
  outcomes = [];
}

-- The sample is what the decoder gives.
pub from_json-image : from_json json [] ≡ ok image
unfolding from_json validate finish collect check_boots check_boot check_paths error_if contains
    check_reference check_disks check_disk protocol validate_disk validate_digest check_hex
    strip_prefix is_bad_hex decimal components is_absolute is_ascii_hexdigit is_blank is_whitespace
    later_components path_components push_segment segment_component segments check_parts str_field
    validate_access validate_accesses validate_boot validate_boots validate_file_ref
    validate_machine validate_name validate_network validate_range validate_system error
    is_unsafe_path path required
from_json-image = refl
