-- ===== src/Tests/Layers.antt =====
-- The theorems on chunks on their way, at a small file.
use mathlib.Core.List.Perm
use mirum.Base.{ℕ, ◌≡◌, refl, sym, false, List, [], ◌∷◌, ok, arith, is_empty}
use mirum.Base.Exec.{◌>>=◌}
use mirum.Base.Decimal.{decimal}
use mirum.Base.Text.{
  strip_prefix, components, segments, push_segment, path_components, later_components,
  segment_component,
}
use mirum.Oci.Types.{ImageLayer, OciDescriptor}
use mirum.Oci.Chunks.{Chunk, assemble, file_chunks, read_chunks}
use mirum.Oci.World.{World, outcome, step}
use mirum.Oci.Storage.{
  strip_sha256, sha256_hex, blob_path, safe_component, access, found, store_named, store_blob,
  write_temporary, rename, write_blob,
}
use mirum.Oci.Images.{chunk_descriptor, write_chunk, write_rounds, write_file_chunks, not_empty}
use mirum.Oci.Layers.{group_layers, decompress_chunks}
use mirum.Oci.RoundTrip.{Sent, layers_of, assemble-layers_of}
use mirum.Oci.Described.{Describes, write_file_chunks-Describes}
use mirum.Tests.Samples.{external, nothing}

abbrev second : Sent
second = ((2, 3 ∷ []), 3 ∷ [])

abbrev first : Sent
first = ((0, 1 ∷ 2 ∷ []), 1 ∷ 2 ∷ [])

assemble-layers_of_example :
    (grouped : List (ℕ × ImageLayer)) × (arrived : List Chunk) × (group_layers
        (layers_of "root.qcow2" (second ∷ first ∷ []))
        []
      ≡ ok (("root.qcow2", grouped) ∷ []))
    × (decompress_chunks external grouped ≡ ok arrived)
    × (assemble arrived ≡ 1 ∷ 2 ∷ 3 ∷ [])
assemble-layers_of_example =
    assemble-layers_of external "root.qcow2" 2 (1 ∷ 2 ∷ 3 ∷ []) second (first ∷ []) (λ b c h. sym h)
      (omega arith) ((omega arith, refl), ((omega arith, refl), tt))
      (unfold read_chunks in Perm.swap (0, 1 ∷ 2 ∷ []) (2, 3 ∷ []) [])

abbrev after : World
after = (write_file_chunks external 2 "root.qcow2" (1 ∷ 2 ∷ 3 ∷ []) nothing).1

abbrev described : List OciDescriptor
described =
    chunk_descriptor "root.qcow2" 0 2 "sha256:1-2-d" 2
    ∷ chunk_descriptor "root.qcow2" 2 1 "sha256:3-d" 1
    ∷ []

write_file_chunks-Describes_example :
    (is_empty described ≡ false)
    × Describes external "root.qcow2" (file_chunks 2 (1 ∷ 2 ∷ 3 ∷ [])) described
write_file_chunks-Describes_example =
    write_file_chunks-Describes external 2 "root.qcow2" (1 ∷ 2 ∷ 3 ∷ []) nothing {ds = described}
      {w' = after}
      (unfold write_file_chunks write_rounds write_chunk not_empty found write_blob sha256_hex
          strip_sha256 strip_prefix blob_path safe_component components segments push_segment
          path_components later_components segment_component store_named access outcome step
          store_blob write_temporary rename decimal ◌>>=◌ in
        refl)
