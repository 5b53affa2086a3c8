-- ===== src/Oci/Layers.antt =====
-- The layers of an image that `pull` of crates/mirum-vm-oci/src/lib.rs puts together to files: the
-- loop over `image_data.layers` and the loop over the chunks of a file.
use Prim.Native.Nat.{Ordering}
use Prim.Native.String.{compare}
use mirum.Base.{
  ℕ, String, Bool, true, false, List, [], ◌∷◌, ◌++◌, Result, ok, ok_or, ◌>>=◌, ◌=s=◌, if◌then◌else◌,
}
use mirum.Base.Decimal.{parse_u64}
use mirum.Oci.Types.{get, image_title, chunk_offset, ImageLayer}
use mirum.Oci.Chunks.{Chunk}
use mirum.Oci.World.{Error, io, invalid_layer, invalid_annotation, External}

-- The title and the offset of a layer that was pulled.
unfoldable pub layer_title : ImageLayer → Result Error (String × ℕ)
layer_title layer = do
  annotations ← ok_or layer.annotations (invalid_layer "missing annotations")
  title ← ok_or (get annotations image_title) (invalid_layer "missing title annotation")
  offset_value ← ok_or (get annotations chunk_offset) (invalid_layer "missing offset annotation")
  offset ← ok_or (parse_u64 offset_value) (invalid_annotation "offset" offset_value)
  ok (title, offset)

-- `BTreeMap<String, Vec<(u64, ImageLayer)>>`, in the order of its keys.
abbrev pub ByTitle : Type 0
ByTitle = List (String × List (ℕ × ImageLayer))

abbrev pub is_before : String → String → Bool
is_before a b = elim (compare a b) [ Ordering.lt ↦ true | _ ↦ false ]

-- `by_title.entry(title).or_default().push(chunk)`
unfoldable pub push_chunk : String → ℕ × ImageLayer → ByTitle → ByTitle
push_chunk title chunk [] = (title, chunk ∷ []) ∷ []
push_chunk title chunk ((key, chunks) ∷ more) =
    let later = push_chunk title chunk more in
    if title =s= key
    then (key, chunks ++ chunk ∷ []) ∷ more
    else if is_before title key
    then (title, chunk ∷ []) ∷ (key, chunks) ∷ more
    else (key, chunks) ∷ later

unfoldable pub group_layers : List ImageLayer → ByTitle → Result Error ByTitle
group_layers [] by_title = ok by_title
group_layers (layer ∷ layers) by_title = do
  t ← layer_title layer
  group_layers layers (push_chunk t.0 (t.1, layer) by_title)

module _ (X : External) where
  -- `decode_all` on the chunks of a file.
  unfoldable pub decompress_chunks : List (ℕ × ImageLayer) → Result Error (List Chunk)
  decompress_chunks [] = ok []
  decompress_chunks ((offset, layer) ∷ chunks) = do
    bytes ← ok_or (X.decompress layer.bytes) io
    more ← decompress_chunks chunks
    ok ((offset, bytes) ∷ more)
