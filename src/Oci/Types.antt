-- ===== src/Oci/Types.antt =====
-- The data that crates/mirum-vm-oci exchanges with `oci_client`: descriptors, manifests, the index
-- and layers, with the fields that the crate reads or writes. Annotations are association lists.
use mirum.Base.{ℕ, String, Option, none, some, List, [], ◌∷◌, ◌=s=◌, if◌then◌else◌}

abbrev pub Bytes : Type 0
Bytes = List ℕ

abbrev pub Annotations : Type 0
Annotations = List (String × String)

-- `BTreeMap::get`.
unfoldable pub get : Annotations → String → Option String
get [] key = none
get ((k, v) ∷ a) key = if k =s= key then some v else get a key

-- `annotations.as_ref().and_then(|a| a.get(key))`.
abbrev pub annotation : Option Annotations → String → Option String
annotation none key = none
annotation (some a) key = get a key

abbrev pub ref_name : String
ref_name = "org.opencontainers.image.ref.name"

abbrev pub image_title : String
image_title = "org.opencontainers.image.title"

abbrev pub chunk_offset : String
chunk_offset = "io.dimidiumlabs.mirum.vm.chunk.offset"

abbrev pub chunk_length : String
chunk_length = "io.dimidiumlabs.mirum.vm.chunk.length"

abbrev pub chunk_media_type : String
chunk_media_type = "application/vnd.mirum.vm.disk.chunk.v1"

abbrev pub config_media_type : String
config_media_type = "application/vnd.mirum.vm.machine.config.v1+json"

abbrev pub oci_image_media_type : String
oci_image_media_type = "application/vnd.oci.image.manifest.v1+json"

pub record OciDescriptor : Type 0 where
  pub media_type : String
  pub digest : String
  pub size : ℕ
  pub annotations : Option Annotations

pub record OciImageManifest : Type 0 where
  pub config : OciDescriptor
  pub layers : List OciDescriptor

pub record ImageIndexEntry : Type 0 where
  pub media_type : String
  pub digest : String
  pub size : ℕ
  pub annotations : Option Annotations

-- Of `OciImageIndex` the crate reads and changes the manifests only.
abbrev pub OciImageIndex : Type 0
OciImageIndex = List ImageIndexEntry

pub record ImageLayer : Type 0 where
  pub bytes : Bytes
  pub media_type : String
  pub annotations : Option Annotations
