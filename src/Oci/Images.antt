-- ===== src/Oci/Images.antt =====
-- The operations of `ImageManager` in crates/mirum-vm-oci/src/lib.rs. The directory that `load` reads
-- is given by its entries and does not change meanwhile; what `Client::pull` returns is given too.
use Prim.Native.Nat.{Ordering}
use Prim.Native.String.{compare}
use mirum.Base.{
  ℕ, zero, suc, ◌+◌, String, Bool, true, false, not, Option, none, some, List, [], ◌∷◌, ◌++◌,
  Result, ok, err, take, drop, length, is_empty, ltb, map_err, ◌&&◌, ◌=s=◌, if◌then◌else◌,
}
use mirum.Base.Exec.{pure, lift, ◌>>=◌, ◌>>◌}
use mirum.Base.Decimal.{decimal}
use mirum.Hmi.Json.{Json}
use mirum.Hmi.Decode.{from_json}
use mirum.Oci.Types.{
  Bytes, Annotations, image_title, chunk_offset, chunk_length, chunk_media_type, config_media_type,
  OciDescriptor,
}
use mirum.Oci.Index.{index_set}
use mirum.Oci.Chunks.{chunk_size}
use mirum.Oci.World.{Error, invalid_image, missing_config, empty_image_file, M, External}
use mirum.Oci.Storage.{
  access, found, write_blob, read_index, write_index, ensure_hmi_image, cache_hmi_file,
}

-- What `fs::metadata` finds at `config.json`.
pub data ConfigFile : Type 0 where
  no_config other_config : ConfigFile
  config_file : Bytes → ConfigFile

pub record DirEntry : Type 0 where
  pub file_name : String
  pub is_file : Bool
  pub contents : Bytes

-- `entries.sort_by_key(|entry| entry.file_name())`
precedes : String → String → Bool
precedes a b = elim (compare a b) [ Ordering.gt ↦ false | _ ↦ true ]

insert_entry : DirEntry → List DirEntry → List DirEntry
unfolding precedes
insert_entry e [] = e ∷ []
insert_entry e (f ∷ fs) =
    let later = insert_entry e fs in
    if precedes e.file_name f.file_name then e ∷ f ∷ fs else f ∷ later

unfoldable pub sort_entries : List DirEntry → List DirEntry
unfolding insert_entry
sort_entries [] = []
sort_entries (e ∷ es) = insert_entry e (sort_entries es)

abbrev pub chunk_annotations : String → ℕ → ℕ → Annotations
chunk_annotations title offset length =
    (image_title, title) ∷ (chunk_offset, decimal offset) ∷ (chunk_length, decimal length) ∷ []

abbrev pub chunk_descriptor : String → ℕ → ℕ → String → ℕ → OciDescriptor
chunk_descriptor title offset length digest size = record {
  media_type = chunk_media_type;
  digest = digest;
  size = size;
  annotations = some (chunk_annotations title offset length);
}

-- The part of an entry that the loop over the directory of `load` keeps.
abbrev pub is_source : DirEntry → Bool
is_source e = e.is_file && not (e.file_name =s= "config.json")

unfoldable pub sources : List DirEntry → List DirEntry
sources [] = []
sources (e ∷ es) = let rest = sources es in if is_source e then e ∷ rest else rest

-- The config that `load` reads, or why there is none.
unfoldable pub config_of : String → ConfigFile → Result Error Bytes
config_of path no_config = err (missing_config path)
config_of path other_config = err (missing_config path)
config_of path (config_file bytes) = ok bytes

-- `Ok` only of a list that is not empty. (The error carries the path, which the title stands for.)
unfoldable pub not_empty : String → List OciDescriptor → Result Error (List OciDescriptor)
not_empty title [] = err (empty_image_file title)
not_empty title (d ∷ ds) = ok (d ∷ ds)

-- Tagging, the end of `load` and of `pull`.
unfoldable pub tag_image : String → String → ℕ → M (Unit {0})
tag_image reference digest size = do
  index ← read_index
  write_index (index_set index reference digest size)

unfoldable pub cache_sources : String → List DirEntry → M (Unit {0})
cache_sources digest [] = pure tt
cache_sources digest (e ∷ es) =
    let rest = cache_sources digest es in do cache_hmi_file digest e.file_name e.contents; rest

module _ (X : External) where
  -- One round of the loop of `write_file_chunks` on the bytes that were read, which are not empty.
  unfoldable pub write_chunk : String → ℕ → Bytes → M OciDescriptor
  write_chunk title offset buf = do
    compressed ← found (X.compress buf)
    digest ← write_blob X compressed
    pure (chunk_descriptor title offset (length buf) digest (length compressed))

  -- The rounds from an offset on, over what is left of the file.
  unfoldable pub write_rounds : ℕ → String → ℕ → ℕ → Bytes → M (List OciDescriptor)
  write_rounds size title zero offset rest = pure []
  write_rounds size title (suc fuel) offset rest =
      let buf = take size rest in
      let more = write_rounds size title fuel (offset + length buf) (drop size rest) in
      do
        access
        (if is_empty buf then pure [] else do
          d ← write_chunk title offset buf
          ds ← if ltb (length buf) size then pure [] else more
          pure (d ∷ ds))

  unfoldable pub write_file_chunks : ℕ → String → Bytes → M (List OciDescriptor)
  write_file_chunks size title file = do
    access
    descriptors ← write_rounds size title (suc (length file)) 0 file
    lift (not_empty title descriptors)

  -- The loop over the entries; `file_type` may fail on each.
  unfoldable pub write_layers : List DirEntry → M (List OciDescriptor)
  write_layers [] = pure []
  write_layers (e ∷ es) =
      let rest = write_layers es in
      do
        access
        ds ← if is_source e then write_file_chunks chunk_size e.file_name e.contents else pure []
        ds' ← rest
        pure (ds ++ ds')

  -- `load` after the config was checked and up to the tag: the digest and the size of the manifest.
  unfoldable pub store_directory : Bytes → List DirEntry → M (String × ℕ)
  store_directory config_bytes entries = do
    layers ← write_layers entries
    config_digest ← write_blob X config_bytes
    manifest ← pure (
        X.encode_manifest record {
          config = record {
            media_type = config_media_type;
            digest = config_digest;
            size = length config_bytes;
            annotations = none;
          };
          layers = layers;
        })
    manifest_digest ← write_blob X manifest
    ensure_hmi_image manifest_digest
    cache_sources manifest_digest (sources entries)
    pure (manifest_digest, length manifest)

  -- `load` after the directory was read.
  unfoldable pub load_directory : Bytes → List DirEntry → Option String → M String
  load_directory config_bytes entries none = do
    stored ← store_directory config_bytes entries
    pure stored.0
  load_directory config_bytes entries (some reference) = do
    stored ← store_directory config_bytes entries
    tag_image reference stored.0 stored.1
    pure stored.0

  module _ (J : Json) where
    unfoldable pub load : String → ConfigFile → List DirEntry → Option String → M String
    load path config entries reference = do
      access
      config_bytes ← lift (config_of path config)
      access
      lift (map_err invalid_image (from_json J config_bytes))
      access
      load_directory config_bytes (sort_entries entries) reference
