-- ===== src/Tests/Stores.antt =====
-- The theorems on the image store, at small states of it.
use mirum.Base.{
  ℕ, String, ◌≡◌, refl, ◌↔◌, ◌⊎◌, inl, true, Option, some, none, List, [], ◌∷◌, ok, arith,
}
use mathlib.Core.List.Perm
use mirum.Base.Exec.{◌>>=◌}
use mirum.Base.Decimal.{decimal}
use mirum.Base.Text.{
  normal, strip_prefix, components, segments, push_segment, path_components, later_components,
  segment_component,
}
use mirum.Oci.Types.{Bytes, ImageLayer, OciImageIndex}
use mirum.Oci.Index.{index_entry}
use mirum.Oci.Chunks.{assemble, read_chunks}
use mirum.Oci.Chunks.Assemble.{assemble-perm_file_chunks}
use mirum.Oci.World.{World, done, torn, outcome, step}
use mirum.Oci.Storage.{
  safe_component, hmi_file_path, strip_sha256, sha256_hex, blob_path, access, store_named,
  store_blob, write_temporary, rename, write_blob, read_blob,
}
use mirum.Oci.Storage.Names.{hmi_file_path_iff}
use mirum.Oci.Storage.Blobs.{IsSound, KeepsBlobs, write_blob-read_blob}
use mirum.Oci.Images.{config_file, DirEntry, chunk_annotations, load}
use mirum.Oci.Registry.{Registry, pull}
use mirum.Oci.Tagging.{IndexAfter, load-index, pull-index}
use mirum.Tests.Samples.{json, external, nothing}

none-ne-some : {b : Bytes} → ◌≡◌ {A = Option Bytes} none (some b) → ⊥
none-ne-some h = cc

abbrev nothing_sound : IsSound external nothing
nothing_sound = record { at = λ n b h. absurd (none-ne-some h) }

hmi_file_path_iff_example : (hmi_file_path "sha256:ab" "root.hmi" ≡ ok ("ab", "root.hmi")) ↔ (
    ("ab" ≡ strip_sha256 "sha256:ab")
    × (◌≡◌ {A = String} "root.hmi" "root.hmi")
    × (s t : List ℕ) × (components (strip_sha256 "sha256:ab") ≡ normal s ∷ [])
    × (components "root.hmi" ≡ normal t ∷ []))
hmi_file_path_iff_example = hmi_file_path_iff "sha256:ab" "root.hmi" "ab" "root.hmi"

abbrev tags : OciImageIndex
tags = index_entry "debian" "sha256:1" 10 ∷ index_entry "alpine" "sha256:2" 10 ∷ []

assemble-perm_file_chunks_example : assemble ((2, 3 ∷ []) ∷ (0, 1 ∷ 2 ∷ []) ∷ []) ≡ 1 ∷ 2 ∷ 3 ∷ []
assemble-perm_file_chunks_example =
    assemble-perm_file_chunks 2 (1 ∷ 2 ∷ 3 ∷ []) ((2, 3 ∷ []) ∷ (0, 1 ∷ 2 ∷ []) ∷ []) (omega arith)
      (unfold read_chunks in Perm.swap (0, 1 ∷ 2 ∷ []) (2, 3 ∷ []) [])

abbrev written : World
written = (write_blob external (7 ∷ []) nothing).1

write_blob-read_blob_example :
    (b : Bytes) × ((read_blob "sha256:7-d" written).0 ≡ ok b)
    × (external.sha256 b ≡ external.sha256 (7 ∷ []))
    × ((b ≡ 7 ∷ []) ⊎ (nothing.blobs (external.sha256 (7 ∷ [])) ≡ some b))
write_blob-read_blob_example =
    write_blob-read_blob external (7 ∷ []) nothing {digest = "sha256:7-d"} {w' = written} written
      nothing_sound
      (unfold write_blob sha256_hex strip_sha256 strip_prefix blob_path safe_component components
          segments push_segment path_components later_components segment_component store_named
          access outcome step store_blob write_temporary rename decimal ◌>>=◌ in
        refl)
      (record { at = λ n. inl refl })
      (unfold write_blob sha256_hex strip_sha256 strip_prefix blob_path safe_component components
          segments push_segment path_components later_components segment_component store_named
          access outcome step store_blob write_temporary rename decimal ◌>>=◌ in
        refl)

abbrev entries : List DirEntry
entries =
    record { file_name = "root.qcow2"; is_file = true; contents = 1 ∷ 2 ∷ [] }
    ∷ record { file_name = "config.json"; is_file = true; contents = [] }
    ∷ []

load-index_example :
    let p = load external json "/image" (config_file []) entries (some "debian") nothing in
    IsSound external p.1 × KeepsBlobs nothing p.1 × IndexAfter "debian" nothing p
load-index_example =
    load-index external json "/image" (config_file []) entries "debian" nothing nothing_sound

abbrev layer : ImageLayer
layer = record {
  bytes = 1 ∷ 2 ∷ [];
  media_type = "application/vnd.mirum.vm.disk.chunk.v1";
  annotations = some (chunk_annotations "root.qcow2" 0 2);
}

abbrev registry : Registry
registry = record {
  pull = λ r. some record { layers = layer ∷ []; config = []; manifest = none };
  push = λ r u. true;
}

abbrev failing : World
failing = record nothing { outcomes = done ∷ done ∷ done ∷ torn 1 ∷ [] }

pull-index_example :
    let p = pull external registry "debian" failing in
    IsSound external p.1 × KeepsBlobs failing p.1 × IndexAfter "debian" failing p
pull-index_example =
    pull-index external registry "debian" failing (record { at = λ n b h. absurd (none-ne-some h) })
