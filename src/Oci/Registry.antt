-- ===== src/Oci/Registry.antt =====
-- The operations of `ImageManager` in crates/mirum-vm-oci/src/lib.rs on images that are tagged or
-- come from a registry. `Client::pull` and `Client::push` of `oci_client` are parameters.
use mirum.Base.{
  ℕ, String, Bool, Option, none, some, List, [], ◌∷◌, Result, ok, err, length, is_some, ok_or,
  ◌=s=◌, if◌then◌else◌,
}
use mirum.Base.Exec.{pure, raise, lift, ◌>>=◌, ◌>>◌}
use mirum.Oci.Types.{
  Bytes, annotation, image_title, OciDescriptor, OciImageManifest, OciImageIndex, ImageLayer,
}
use mirum.Oci.Index.{index_lookup}
use mirum.Oci.Layers.{is_before, ByTitle, group_layers, decompress_chunks}
use mirum.Oci.Images.{tag_image}
use mirum.Oci.World.{
  Error, registry, missing_manifest, invalid_reference, image_not_found, json, M, External, outcome,
}
use mirum.Oci.Storage.{
  access, read_blob, write_blob, read_index, ensure_hmi_image, write_hmi_file, export_hmi_file,
  copy_out,
}

-- `oci_client::client::ImageData`.
pub record ImageData : Type 0 where
  pub layers : List ImageLayer
  pub config : Bytes
  pub manifest : Option OciImageManifest

-- What is handed to `Client::push`.
pub record Upload : Type 0 where
  pub layers : List ImageLayer
  pub config : ImageLayer
  pub manifest : OciImageManifest

pub record Registry : Type 0 where
  pub pull : String → Option ImageData
  pub push : String → Upload → Bool

-- `titles.insert(title)` of the `BTreeSet`, in the order of its elements.
insert_title : String → List String → List String
insert_title title [] = title ∷ []
insert_title title (t ∷ ts) =
    let later = insert_title title ts in
    if title =s= t then t ∷ ts else if is_before title t then title ∷ t ∷ ts else t ∷ later

unfoldable pub insert_titles : List OciDescriptor → List String → List String
unfolding insert_title
insert_titles [] titles = titles
insert_titles (d ∷ ds) titles = elim (annotation d.annotations image_title) [
  | none ↦ insert_titles ds titles
  | some title ↦ insert_titles ds (insert_title title titles)
]

-- `serde_json::from_slice` of a manifest.
abbrev decode : External → Bytes → Result Error OciImageManifest
decode X bytes = ok_or (X.decode_manifest bytes) json

unfoldable pub digest_of : OciImageIndex → String → Result Error String
digest_of index reference = ok_or (index_lookup index reference) (image_not_found reference)

unfoldable pub export_titles : String → List String → M (Unit {0})
export_titles digest [] = pure tt
export_titles digest (t ∷ ts) =
    let rest = export_titles digest ts in do export_hmi_file digest t; rest

-- The layers of an image that is pushed.
unfoldable pub read_layers : List OciDescriptor → M (List ImageLayer)
read_layers [] = pure []
read_layers (d ∷ ds) =
    let rest = read_layers ds in
    do
      bytes ← read_blob d.digest
      layers ← rest
      pure (
          record { bytes = bytes; media_type = d.media_type; annotations = d.annotations } ∷ layers)

-- `contains`
unfoldable pub contains : String → M Bool
contains reference = do index ← read_index; pure (is_some (index_lookup index reference))

module _ (X : External) where
  unfoldable pub parse_reference : String → Result Error (Unit {0})
  parse_reference reference =
      if X.is_reference reference then ok tt else err (invalid_reference reference)

  -- `materialize` into an empty or an existing directory.
  unfoldable pub materialize : String → M Bytes
  materialize reference = do
    index ← read_index
    manifest_digest ← lift (digest_of index reference)
    manifest_bytes ← read_blob manifest_digest
    manifest ← lift (decode X manifest_bytes)
    config_bytes ← read_blob manifest.config.digest
    access
    o ← outcome
    copy_out "config.json" config_bytes o
    export_titles manifest_digest (insert_titles manifest.layers [])
    pure config_bytes

  -- What `push` reads and hands to the client.
  unfoldable pub read_upload : String → M Upload
  read_upload reference = do
    index ← read_index
    manifest_digest ← lift (digest_of index reference)
    manifest_bytes ← read_blob manifest_digest
    manifest ← lift (decode X manifest_bytes)
    lift (parse_reference reference)
    layers ← read_layers manifest.layers
    config_bytes ← read_blob manifest.config.digest
    pure record {
      layers = layers;
      config = record {
        bytes = config_bytes;
        media_type = manifest.config.media_type;
        annotations = manifest.config.annotations;
      };
      manifest = manifest;
    }

  unfoldable pub push : Registry → String → M (Unit {0})
  push R reference = do
    upload ← read_upload reference
    if R.push reference upload then pure tt else raise registry

  unfoldable pub write_pulled : List ImageLayer → M (Unit {0})
  write_pulled [] = pure tt
  write_pulled (layer ∷ layers) =
      let rest = write_pulled layers in do write_blob X layer.bytes; rest

  unfoldable pub write_files : String → ByTitle → M (Unit {0})
  write_files digest [] = pure tt
  write_files digest ((title, chunks) ∷ more) =
      let rest = write_files digest more in
      do
        decompressed_chunks ← lift (decompress_chunks X chunks)
        write_hmi_file digest title decompressed_chunks
        rest

  -- `pull` once the client has returned, up to the tag: the digest and the size of the manifest.
  unfoldable pub store_image : ImageData → OciImageManifest → M (String × ℕ)
  store_image image_data manifest = do
    write_pulled image_data.layers
    config_digest ← write_blob X image_data.config
    manifest_digest ← write_blob X (X.encode_manifest manifest)
    ensure_hmi_image manifest_digest
    by_title ← lift (group_layers image_data.layers [])
    write_files manifest_digest by_title
    pure (manifest_digest, length (X.encode_manifest manifest))

  unfoldable pub pull : Registry → String → M String
  pull R reference = do
    lift (parse_reference reference)
    image_data ← lift (ok_or (R.pull reference) registry)
    manifest ← lift (ok_or image_data.manifest missing_manifest)
    stored ← store_image image_data manifest
    tag_image reference stored.0 stored.1
    pure stored.0
