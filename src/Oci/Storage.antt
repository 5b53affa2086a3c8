-- ===== src/Oci/Storage.antt =====
-- `Storage` of crates/mirum-vm-oci/src/storage.rs. A path is named by its last component, below the
-- directory that the function over it joins it to.
pub mod Names
pub mod Blobs
pub mod Quiet
use mirum.Base.{
  ℕ, String, ◌<>◌, Bool, true, false, Option, none, some, List, [], ◌∷◌, Result, ok, err, take,
  drop, length, is_some, ok_or, ◌&&◌, ◌=s=◌, if◌then◌else◌,
}
use mirum.Base.Exec.{pure, raise, lift, gets, ◌>>=◌, ◌>>◌}
use mirum.Base.Text.{codes, strip_prefix, Component, normal, components}
use mirum.Oci.Types.{Bytes, OciImageIndex}
use mirum.Oci.Chunks.{Chunk, sort_chunks, write_at}
use mirum.Oci.World.{
  Error, io, json, invalid_storage_path, Outcome, done, failed, torn, IndexFile, absent, broken,
  good, World, M, update, update₂, External, outcome, step,
}

is_single : List Component → Bool
is_single (normal s ∷ []) = true
is_single _ = false

unfoldable pub safe_component : String → String → Result Error String
unfolding is_single
safe_component value kind =
    if is_single (components value) then ok value else err (invalid_storage_path kind value)

-- `unwrap_or`
abbrev unwrap_or : Option String → String → String
unwrap_or none default = default
unwrap_or (some s) default = s

unfoldable pub strip_sha256 : String → String
strip_sha256 digest = unwrap_or (strip_prefix "sha256:" digest) digest

-- Below `blobs/sha256`.
unfoldable pub blob_path : String → Result Error String
blob_path digest = safe_component (strip_sha256 digest) "blob digest"

-- Below the HMI root.
unfoldable pub hmi_image_dir : String → Result Error String
hmi_image_dir manifest_digest = safe_component (strip_sha256 manifest_digest) "manifest digest"

-- The directory and the file in it, when both names are good; the file's name is looked at first.
abbrev join : Result Error String → Result Error String → Result Error (String × String)
join (err e) dir = err e
join (ok name) (err e) = err e
join (ok name) (ok dir) = ok (dir, name)

unfoldable pub hmi_file_path : String → String → Result Error (String × String)
hmi_file_path manifest_digest title =
    join (safe_component title "image file name") (hmi_image_dir manifest_digest)

-- An operation that only reads.
unfoldable pub access : M (Unit {0})
access = do o ← outcome; step o (λ w. w)

unfoldable pub found : Option Bytes → M Bytes
found none = raise io
found (some bytes) = pure bytes

unfoldable pub read_blob : String → M Bytes
read_blob digest = do
  name ← lift (blob_path digest)
  access
  blob ← gets (λ w. w.blobs name)
  found blob

-- `fs::write(&tmp, data)`
unfoldable pub write_temporary : String → Bytes → Outcome → M (Unit {0})
write_temporary name bytes done w =
    (ok tt, record w { temporaries = update w.temporaries name (some bytes) })
write_temporary name bytes failed w = (err io, w)
write_temporary name bytes (torn n) w =
    (err io, record w { temporaries = update w.temporaries name (some (take n bytes)) })

-- `fs::rename(&tmp, &path)`
unfoldable pub rename : String → World → World
rename name w = record w {
  blobs = update w.blobs name (w.temporaries name);
  temporaries = update w.temporaries name none;
}

-- `write_blob` after `try_exists`.
unfoldable pub store_blob : String → Bytes → Bool → M (Unit {0})
store_blob name bytes true = pure tt
store_blob name bytes false = do
  o ← outcome
  write_temporary name bytes o
  o' ← outcome
  step o' (rename name)

-- `write_blob` once the blob's name is known.
unfoldable pub store_named : String → Bytes → M (Unit {0})
store_named name bytes = do
  access
  blob ← gets (λ w. w.blobs name)
  store_blob name bytes (is_some blob)

module _ (X : External) where
  unfoldable pub sha256_hex : Bytes → String
  sha256_hex bytes = "sha256:" <> X.sha256 bytes

  -- The digest; the data comes back unchanged and is left out.
  unfoldable pub write_blob : Bytes → M String
  write_blob bytes = do
    name ← lift (blob_path (sha256_hex bytes))
    store_named name bytes
    pure (sha256_hex bytes)

-- What is in the file; a text that is no index is an error of the JSON decoder.
unfoldable pub parse_index : IndexFile → Result Error OciImageIndex
parse_index absent = ok []
parse_index broken = err json
parse_index (good index) = ok index

unfoldable pub is_absent : IndexFile → Bool
is_absent absent = true
is_absent _ = false

-- `try_exists`, and `fs::read` of a file that is there.
unfoldable pub read_index : M OciImageIndex
read_index = do
  access
  file ← gets (λ w. w.index)
  (if is_absent file then pure tt else access)
  lift (parse_index file)

unfoldable pub put_index : OciImageIndex → Outcome → M (Unit {0})
put_index index done w = (ok tt, record w { index = good index })
put_index index failed w = (err io, w)
put_index index (torn n) w = (err io, record w { index = broken })

unfoldable pub write_index : OciImageIndex → M (Unit {0})
write_index index = do o ← outcome; put_index index o

unfoldable pub ensure_hmi_image : String → M (Unit {0})
ensure_hmi_image manifest_digest = do
  dir ← lift (hmi_image_dir manifest_digest)
  o ← outcome
  step o (λ w. record w { images = update w.images dir true })

-- The contents of a file of an image directory.
abbrev put_hmi : String → String → Bytes → World → World
put_hmi dir name bytes w = record w { hmi = update₂ w.hmi dir name (some bytes) }

-- `hardlink_or_copy` into the image directory: the copy is tried when no link can be made.
unfoldable pub copy_into : String → String → Bytes → Outcome → M (Unit {0})
copy_into dir name source done w = (ok tt, put_hmi dir name source w)
copy_into dir name source failed w = (err io, w)
copy_into dir name source (torn n) w = (err io, put_hmi dir name (take n source) w)

unfoldable pub link_into : String → String → Bytes → Outcome → M (Unit {0})
link_into dir name source done w = (ok tt, put_hmi dir name source w)
link_into dir name source _ w = (outcome >>= copy_into dir name source) w

unfoldable pub cache_hmi_file : String → String → Bytes → M (Unit {0})
cache_hmi_file manifest_digest title source = do
  path ← lift (hmi_file_path manifest_digest title)
  access
  there ← gets (λ w. w.hmi path.0 path.1)
  (if is_some there then pure tt else outcome >>= link_into path.0 path.1 source)

-- One chunk: `seek`, and `write_all` to the file as it is.
unfoldable pub put_chunk : String → String → ℕ → Bytes → Option Bytes → Outcome → M (Unit {0})
put_chunk dir name offset bytes none o w = (err io, w)
put_chunk dir name offset bytes (some file) done w =
    (ok tt, put_hmi dir name (write_at offset bytes file) w)
put_chunk dir name offset bytes (some file) failed w = (err io, w)
put_chunk dir name offset bytes (some file) (torn n) w =
    (err io, put_hmi dir name (write_at offset (take n bytes) file) w)

unfoldable pub put_chunks : String → String → List Chunk → M (Unit {0})
put_chunks dir name [] = pure tt
put_chunks dir name ((offset, bytes) ∷ rest) =
    let more = put_chunks dir name rest in
    do
      access
      o ← outcome
      file ← gets (λ w. w.hmi dir name)
      put_chunk dir name offset bytes file o
      more

-- `File::create` empties the file; it needs the image's directory.
unfoldable pub create : String → String → Bool → Outcome → M (Unit {0})
create dir name true o = step o (put_hmi dir name [])
create dir name false o = raise io

unfoldable pub write_hmi_file : String → String → List Chunk → M (Unit {0})
write_hmi_file manifest_digest title chunks = do
  path ← lift (hmi_file_path manifest_digest title)
  o ← outcome
  there ← gets (λ w. w.images path.0)
  create path.0 path.1 there o
  put_chunks path.0 path.1 (sort_chunks chunks)
  access

-- `hardlink_or_copy` to the destination.
unfoldable pub copy_out : String → Bytes → Outcome → M (Unit {0})
copy_out name source done w = (ok tt, record w { exported = update w.exported name (some source) })
copy_out name source failed w = (err io, w)
copy_out name source (torn n) w =
    (err io, record w { exported = update w.exported name (some (take n source)) })

unfoldable pub link_out : String → Bytes → Outcome → M (Unit {0})
link_out name source done w = copy_out name source done w
link_out name source _ w = (outcome >>= copy_out name source) w

unfoldable pub export_hmi_file : String → String → M (Unit {0})
export_hmi_file manifest_digest title = do
  path ← lift (hmi_file_path manifest_digest title)
  access
  there ← gets (λ w. w.exported title)
  source ← gets (λ w. w.hmi path.0 path.1)
  (if is_some there then pure tt else (found source >>= λ bytes. outcome >>= link_out title bytes))

-- `Storage::open`; whether the file `oci-layout` is there already. This file and the directories are
-- used by nothing else and are not kept.
unfoldable pub open_storage : Bool → M (Unit {0})
open_storage has_layout = do access; access; access; if has_layout then pure tt else access
