-- ===== src/Oci/Untagged.antt =====
-- `load` and `pull` of crates/mirum-vm-oci/src/lib.rs before they tag the image.
use mirum.Base.{String, ℕ, List, [], ◌∷◌, is_empty, ltb, take, drop, length, zero, suc}
use mirum.Base.Exec.{Stays, Stays-pure, Stays-lift, Stays-if, Stays-bind}
use mirum.Oci.Types.{Bytes, ImageLayer, OciImageManifest}
use mirum.Oci.Chunks.{chunk_size}
use mirum.Oci.World.{External}
use mirum.Oci.Storage.Quiet.{
  Quiet, Quiet-order, Quiet-access, Quiet-found, Quiet-write_blob, Quiet-ensure_hmi_image,
  Quiet-cache_hmi_file, Quiet-write_hmi_file,
}
use mirum.Oci.Images.{
  DirEntry, is_source, sources, write_chunk, write_rounds, write_file_chunks, write_layers,
  cache_sources, store_directory,
}
use mirum.Oci.Layers.{ByTitle}
use mirum.Oci.Registry.{ImageData, write_pulled, write_files, store_image}

module _ (X : External) where
  Quiet-write_chunk :
      (title : String) (offset : ℕ) (buf : Bytes) → Stays (Quiet X) (write_chunk X title offset buf)
  unfolding write_chunk
  Quiet-write_chunk title offset buf =
      Stays-bind (Quiet-order X) _ _ (Quiet-found X _)
        λ c. Stays-bind (Quiet-order X) _ _ (Quiet-write_blob X c) λ d. Stays-pure (Quiet-order X) _

  Quiet-write_rounds :
      (size : ℕ) (title : String) (fuel offset : ℕ) (rest : Bytes)
      → Stays (Quiet X) (write_rounds X size title fuel offset rest)
  unfolding write_rounds
  Quiet-write_rounds size title zero offset rest = Stays-pure (Quiet-order X) _
  Quiet-write_rounds size title (suc fuel) offset rest =
      Stays-bind (Quiet-order X) _ _ (Quiet-access X) λ _.
        Stays-if (Quiet-order X) (is_empty (take size rest)) _ _ (Stays-pure (Quiet-order X) _) (
          Stays-bind (Quiet-order X) _ _ (Quiet-write_chunk title offset _) λ d.
            Stays-bind (Quiet-order X) _ _
              (Stays-if (Quiet-order X) (ltb (length (take size rest)) size) _ _
                (Stays-pure (Quiet-order X) _)
                (Quiet-write_rounds size title fuel _ (drop size rest)))
              (λ ds. Stays-pure (Quiet-order X) _))

  Quiet-write_file_chunks :
      (size : ℕ) (title : String) (file : Bytes)
      → Stays (Quiet X) (write_file_chunks X size title file)
  unfolding write_file_chunks
  Quiet-write_file_chunks size title file = Stays-bind (Quiet-order X) _ _ (Quiet-access X) λ _.
      Stays-bind (Quiet-order X) _ _ (Quiet-write_rounds size title _ 0 file)
        λ ds. Stays-lift (Quiet-order X) _

  Quiet-write_layers : (es : List DirEntry) → Stays (Quiet X) (write_layers X es)
  unfolding write_layers
  Quiet-write_layers [] = Stays-pure (Quiet-order X) _
  Quiet-write_layers (e ∷ es) = Stays-bind (Quiet-order X) _ _ (Quiet-access X) λ _.
      Stays-bind (Quiet-order X) _ _
        (Stays-if (Quiet-order X) (is_source e) _ _
          (Quiet-write_file_chunks chunk_size e.file_name e.contents)
          (Stays-pure (Quiet-order X) _))
        (λ ds.
          Stays-bind (Quiet-order X) _ _ (Quiet-write_layers es)
            λ ds'. Stays-pure (Quiet-order X) _)

  Quiet-cache_sources :
      (digest : String) (es : List DirEntry) → Stays (Quiet X) (cache_sources digest es)
  unfolding cache_sources
  Quiet-cache_sources digest [] = Stays-pure (Quiet-order X) _
  Quiet-cache_sources digest (e ∷ es) =
      Stays-bind (Quiet-order X) _ _ (Quiet-cache_hmi_file X digest e.file_name e.contents)
        λ _. Quiet-cache_sources digest es

  pub Quiet-store_directory :
      (config : Bytes) (es : List DirEntry) → Stays (Quiet X) (store_directory X config es)
  unfolding store_directory
  Quiet-store_directory config es = Stays-bind (Quiet-order X) _ _ (Quiet-write_layers es) λ layers.
      Stays-bind (Quiet-order X) _ _ (Quiet-write_blob X config) λ c.
        Stays-bind (Quiet-order X) _ _ (Stays-pure (Quiet-order X) _) λ m.
          Stays-bind (Quiet-order X) _ _ (Quiet-write_blob X m) λ d.
            Stays-bind (Quiet-order X) _ _ (Quiet-ensure_hmi_image X d) λ _.
              Stays-bind (Quiet-order X) _ _ (Quiet-cache_sources d (sources es))
                λ _. Stays-pure (Quiet-order X) _

  Quiet-write_pulled : (layers : List ImageLayer) → Stays (Quiet X) (write_pulled X layers)
  unfolding write_pulled
  Quiet-write_pulled [] = Stays-pure (Quiet-order X) _
  Quiet-write_pulled (layer ∷ layers) =
      Stays-bind (Quiet-order X) _ _ (Quiet-write_blob X layer.bytes) λ _. Quiet-write_pulled layers

  Quiet-write_files : (digest : String) (b : ByTitle) → Stays (Quiet X) (write_files X digest b)
  unfolding write_files
  Quiet-write_files digest [] = Stays-pure (Quiet-order X) _
  Quiet-write_files digest ((title, chunks) ∷ more) =
      Stays-bind (Quiet-order X) _ _ (Stays-lift (Quiet-order X) _) λ cs.
        Stays-bind (Quiet-order X) _ _ (Quiet-write_hmi_file X digest title cs)
          λ _. Quiet-write_files digest more

  pub Quiet-store_image :
      (image : ImageData) (manifest : OciImageManifest)
      → Stays (Quiet X) (store_image X image manifest)
  unfolding store_image
  Quiet-store_image image manifest =
      Stays-bind (Quiet-order X) _ _ (Quiet-write_pulled image.layers) λ _.
        Stays-bind (Quiet-order X) _ _ (Quiet-write_blob X image.config) λ _.
          Stays-bind (Quiet-order X) _ _ (Quiet-write_blob X _) λ d.
            Stays-bind (Quiet-order X) _ _ (Quiet-ensure_hmi_image X d) λ _.
              Stays-bind (Quiet-order X) _ _ (Stays-lift (Quiet-order X) _) λ b.
                Stays-bind (Quiet-order X) _ _ (Quiet-write_files d b)
                  λ _. Stays-pure (Quiet-order X) _
