-- ===== src/Oci/RoundTrip.antt =====
-- From a file to the layers that `write_file_chunks` makes of it and back to the file that `pull` puts
-- together, crates/mirum-vm-oci/src/lib.rs and crates/mirum-vm-oci/src/storage.rs.
use mirum.Base.{
  ℕ, ◌<◌, String, ◌≡◌, refl, ap, ◌∙◌, some, List, [], ◌∷◌, ◌++◌, All, length, ok, =s=_refl,
}
use mathlib.Core.List.{append-nil, append_assoc, Perm}
use mirum.Base.Decimal.{u64_mod, parse_u64-decimal}
use mirum.Oci.Types.{Bytes, get, chunk_media_type, ImageLayer}
use mirum.Oci.Chunks.{Chunk, file_chunks, assemble}
use mirum.Oci.Chunks.Assemble.{assemble-perm_file_chunks}
use mirum.Oci.World.{External}
use mirum.Oci.Images.{chunk_annotations}
use mirum.Oci.Layers.{layer_title, push_chunk, group_layers, decompress_chunks}

-- A chunk with its compressed bytes, and the layer that it is sent as.
abbrev pub Sent : Type 0
Sent = Chunk × Bytes

abbrev pub layer_of : String → Sent → ImageLayer
layer_of title ((offset, bytes), compressed) = record {
  bytes = compressed;
  media_type = chunk_media_type;
  annotations = some (chunk_annotations title offset (length bytes));
}

abbrev pub layers_of : String → List Sent → List ImageLayer
layers_of title [] = []
layers_of title (s ∷ ss) = layer_of title s ∷ layers_of title ss

abbrev pub chunks_of : List Sent → List Chunk
chunks_of [] = []
chunks_of (s ∷ ss) = s.0 ∷ chunks_of ss

abbrev pub grouped_of : String → List Sent → List (ℕ × ImageLayer)
grouped_of title [] = []
grouped_of title (s ∷ ss) = (s.0.0, layer_of title s) ∷ grouped_of title ss

-- The offset is an `u64`, and the compressed bytes are those of the chunk.
abbrev pub IsSent : External → Sent → Type 0
IsSent X s = (s.0.0 < u64_mod) × (X.compress s.0.1 ≡ some s.1)

layer_title-layer_of :
    (title : String) (s : Sent)
    → s.0.0 < u64_mod
    → layer_title (layer_of title s) ≡ ok (title, s.0.0)
unfolding layer_title get
layer_title-layer_of title ((o, b), c) h = rw (parse_u64-decimal o h) refl

push_chunk-same :
    (title : String) (chunk : ℕ × ImageLayer) (chunks : List (ℕ × ImageLayer))
    → push_chunk title chunk ((title, chunks) ∷ []) ≡ (title, chunks ++ chunk ∷ []) ∷ []
unfolding push_chunk
push_chunk-same title chunk chunks = rw (=s=_refl title) refl

module _ (X : External) where
  group_layers-layers_of :
      (title : String) (ss : List Sent) (chunks : List (ℕ × ImageLayer))
      → All (IsSent X) ss
      → group_layers (layers_of title ss) ((title, chunks) ∷ [])
        ≡ ok ((title, chunks ++ grouped_of title ss) ∷ [])
  unfolding group_layers
  group_layers-layers_of title [] chunks h = rw (append-nil chunks) refl
  group_layers-layers_of title (s ∷ ss) chunks h =
      rw
        (layer_title-layer_of title s h.0.0, push_chunk-same title (s.0.0, layer_of title s) chunks)
        (group_layers-layers_of title ss (chunks ++ (s.0.0, layer_of title s) ∷ []) h.1
          ∙ ap (λ l. ok ((title, l) ∷ []))
              (append_assoc chunks ((s.0.0, layer_of title s) ∷ []) (grouped_of title ss)))

  decompress_chunks-grouped_of :
      (title : String) (ss : List Sent)
      → ((b c : Bytes) → X.compress b ≡ some c → X.decompress c ≡ some b)
      → All (IsSent X) ss
      → decompress_chunks X (grouped_of title ss) ≡ ok (chunks_of ss)
  unfolding decompress_chunks
  decompress_chunks-grouped_of title [] lossless h = refl
  decompress_chunks-grouped_of title (((o, b), c) ∷ ss) lossless h =
      rw (lossless b c h.0.1, decompress_chunks-grouped_of title ss lossless h.1) refl

  -- With a lossless compressor, the chunks of a file, sent as layers and arriving in any order, are
  -- grouped under the title of the file, and decompressing and writing them gives the file.
  pub assemble-layers_of :
      (title : String) (size : ℕ) (file : Bytes) (s : Sent) (ss : List Sent)
      → ((b c : Bytes) → X.compress b ≡ some c → X.decompress c ≡ some b)
      → 0 < size
      → All (IsSent X) (s ∷ ss)
      → Perm (chunks_of (s ∷ ss)) (file_chunks size file)
      → (grouped : List (ℕ × ImageLayer)) × (arrived : List Chunk) × (group_layers
            (layers_of title (s ∷ ss))
            []
          ≡ ok ((title, grouped) ∷ []))
        × (decompress_chunks X grouped ≡ ok arrived)
        × (assemble arrived ≡ file)
  unfolding group_layers push_chunk
  assemble-layers_of title size file s ss lossless positive h p = (
    grouped_of title (s ∷ ss),
    chunks_of (s ∷ ss),
    rw (layer_title-layer_of title s h.0.0)
        (group_layers-layers_of title ss ((s.0.0, layer_of title s) ∷ []) h.1),
    decompress_chunks-grouped_of title (s ∷ ss) lossless h,
    assemble-perm_file_chunks size file (chunks_of (s ∷ ss)) positive p,
  )
