-- ===== src/Oci/World.antt =====
-- What crates/mirum-vm-oci works on: the files below its two roots and in a directory to
-- materialize into, with failures of the file system, and the code of other crates that it calls.
use mirum.Base.{ℕ, String, Bool, Option, List, [], ◌∷◌, ok, err, ◌&&◌, ◌=s=◌, if◌then◌else◌}
use mirum.Base.Exec.{Exec}
pub use mirum.Base.{update}
use mirum.Hmi.Decode.{ParseError}
use mirum.Oci.Types.{Bytes, OciImageManifest, OciImageIndex}

-- crates/mirum-vm-oci/src/error.rs; the errors of other crates carry no detail, and paths are texts.
pub data Error : Type 0 where
  io json registry task missing_manifest : Error
  invalid_image : ParseError → Error
  invalid_reference invalid_image_path missing_config image_not_found : String → Error
  invalid_layer empty_image_file : String → Error
  invalid_annotation invalid_storage_path : String → String → Error

-- How an operation of the file system ends: it is done, or it fails; a write that fails may have
-- written the first bytes, and a failing copy may have copied them.
pub data Outcome : Type 0 where
  done failed : Outcome
  torn : ℕ → Outcome

-- The file `index.json`. Writing it truncates it first, so a failed write leaves no index.
pub data IndexFile : Type 0 where
  absent broken : IndexFile
  good : OciImageIndex → IndexFile

-- `blobs` and `temporaries` are the files `<name>` and `<name>.tmp` of `blobs/sha256`; `hmi` has the
-- files of each image directory, `images` the directories, `exported` the files of the destination.
-- The operations end as `outcomes` says, and are done when it has no more to say.
pub record World : Type 0 where
  pub blobs : String → Option Bytes
  pub temporaries : String → Option Bytes
  pub index : IndexFile
  pub images : String → Bool
  pub hmi : String → String → Option Bytes
  pub exported : String → Option Bytes
  pub outcomes : List Outcome

abbrev pub M : Type 0 → Type 0
M A = Exec World Error A

abbrev pub update₂ :
    {A : Type 0} → (String → String → A) → String → String → A → String → String → A
update₂ f d k v e j = if d =s= e && k =s= j then v else f e j

-- The code of other crates: `serde_json` on manifests, SHA-256 in hexadecimal digits, `zstd`, and
-- the parser of references.
pub record External : Type 0 where
  pub encode_manifest : OciImageManifest → Bytes
  pub decode_manifest : Bytes → Option OciImageManifest
  pub sha256 : Bytes → String
  pub compress : Bytes → Option Bytes
  pub decompress : Bytes → Option Bytes
  pub is_reference : String → Bool

abbrev next_outcome : List Outcome → Outcome
next_outcome [] = done
next_outcome (o ∷ os) = o

abbrev later_outcomes : List Outcome → List Outcome
later_outcomes [] = []
later_outcomes (o ∷ os) = os

-- The outcome of the next operation; a caller decides what it leaves behind.
unfoldable pub outcome : M Outcome
outcome w = (ok (next_outcome w.outcomes), record w { outcomes = later_outcomes w.outcomes })

-- An operation that only reads, or that changes nothing when it fails.
unfoldable pub step : Outcome → (World → World) → M (Unit {0})
step done f w = (ok tt, f w)
step _ f w = (err io, w)
