-- ===== src/Oci/Storage/Quiet.antt =====
-- The operations of `Storage` that leave the index alone and only add blobs, as they are used by
-- `load` and `pull`, however they end.
use mirum.Base.{
  String, ◌≡◌, refl, ◌∙◌, Option, none, some, List, [], ◌∷◌, true, false, Bool, arith, is_some,
}
use mirum.Base.Exec.{
  IsOrder, Stays, Stays-pure, Stays-raise, Stays-lift, Stays-gets, Stays-if, Stays-bind, ◌>>=◌,
}
use mirum.Oci.Types.{Bytes}
use mirum.Oci.Chunks.{Chunk, sort_chunks}
use mirum.Oci.World.{Outcome, done, failed, torn, World, External, outcome, step}
use mirum.Oci.Storage.{
  access, found, write_temporary, rename, store_blob, store_named, write_blob, ensure_hmi_image,
  copy_into, link_into, cache_hmi_file, put_chunk, put_chunks, create, write_hmi_file,
}
use mirum.Oci.Storage.Blobs.{Grows, Grows-order, Grows-same, write_blob-Grows}

module _ (X : External) where
  -- From `w` to `w'` the blobs only grow, and the index is the same.
  pub record Quiet (w w' : World) : Type 0 where
    pub grows : Grows X w w'
    pub index : w'.index ≡ w.index

  pub Quiet-order : IsOrder Quiet
  Quiet-order = record {
    refl = λ w. record { grows = (Grows-order X).refl w; index = refl };
    trans = λ s t u h k. record {
      grows = (Grows-order X).trans s t u h.grows k.grows;
      index = k.index ∙ h.index;
    };
  }

  pub Quiet-same : (w w' : World) → w'.blobs ≡ w.blobs → w'.index ≡ w.index → Quiet w w'
  Quiet-same w w' e i = record { grows = Grows-same X w w' e; index = i }

  Quiet-step :
      (o : Outcome) (f : World → World)
      → ((w : World) → (f w).blobs ≡ w.blobs)
      → ((w : World) → (f w).index ≡ w.index)
      → Stays Quiet (step o f)
  unfolding step
  Quiet-step done f b i = record { at = λ w. Quiet-same w (f w) (b w) (i w) }
  Quiet-step failed f b i = record { at = λ w. Quiet-order.refl w }
  Quiet-step (torn n) f b i = record { at = λ w. Quiet-order.refl w }

  pub Quiet-outcome : Stays Quiet outcome
  unfolding outcome
  Quiet-outcome = record { at = λ w. Quiet-same w _ refl refl }

  pub Quiet-access : Stays Quiet access
  unfolding access
  Quiet-access =
      Stays-bind Quiet-order _ _ Quiet-outcome (λ o. Quiet-step o _ (λ w. refl) (λ w. refl))

  pub Quiet-found : (o : Option Bytes) → Stays Quiet (found o)
  unfolding found
  Quiet-found none = Stays-raise Quiet-order _
  Quiet-found (some b) = Stays-pure Quiet-order _

  index-write_blob : (bytes : Bytes) (w : World) → (write_blob X bytes w).1.index ≡ w.index
  unfolding write_blob store_named ◌>>=◌ access outcome step store_blob write_temporary rename
  index-write_blob bytes w = ground arith

  pub Quiet-write_blob : (bytes : Bytes) → Stays Quiet (write_blob X bytes)
  Quiet-write_blob bytes = record {
    at = λ w. record { grows = (write_blob-Grows X bytes).at w; index = index-write_blob bytes w };
  }

  pub Quiet-ensure_hmi_image : (digest : String) → Stays Quiet (ensure_hmi_image digest)
  unfolding ensure_hmi_image
  Quiet-ensure_hmi_image digest =
      Stays-bind Quiet-order _ _ (Stays-lift Quiet-order _)
        λ dir. Stays-bind Quiet-order _ _ Quiet-outcome λ o. Quiet-step o _ (λ w. refl) (λ w. refl)

  Quiet-copy_into :
      (dir name : String) (bytes : Bytes) (o : Outcome) → Stays Quiet (copy_into dir name bytes o)
  unfolding copy_into
  Quiet-copy_into dir name bytes done = record { at = λ w. Quiet-same w _ refl refl }
  Quiet-copy_into dir name bytes failed = record { at = λ w. Quiet-same w _ refl refl }
  Quiet-copy_into dir name bytes (torn n) = record { at = λ w. Quiet-same w _ refl refl }

  Quiet-copy :
      (dir name : String) (bytes : Bytes) → Stays Quiet (outcome >>= copy_into dir name bytes)
  Quiet-copy dir name bytes =
      Stays-bind Quiet-order _ _ Quiet-outcome (Quiet-copy_into dir name bytes)

  Quiet-link_into :
      (dir name : String) (bytes : Bytes) (o : Outcome) → Stays Quiet (link_into dir name bytes o)
  unfolding link_into
  Quiet-link_into dir name bytes done = record { at = λ w. Quiet-same w _ refl refl }
  Quiet-link_into dir name bytes failed = record { at = λ w. (Quiet-copy dir name bytes).at w }
  Quiet-link_into dir name bytes (torn n) = record { at = λ w. (Quiet-copy dir name bytes).at w }

  pub Quiet-cache_hmi_file :
      (digest title : String) (bytes : Bytes) → Stays Quiet (cache_hmi_file digest title bytes)
  unfolding cache_hmi_file
  Quiet-cache_hmi_file digest title bytes =
      Stays-bind Quiet-order _ _ (Stays-lift Quiet-order _) λ path.
        Stays-bind Quiet-order _ _ Quiet-access λ _.
          Stays-bind Quiet-order _ _ (Stays-gets Quiet-order _) λ there.
            Stays-if Quiet-order (is_some there) _ _ (Stays-pure Quiet-order _)
              (Stays-bind Quiet-order _ _ Quiet-outcome (Quiet-link_into path.0 path.1 bytes))

  Quiet-put_chunk :
      (dir name : String) (offset : _) (bytes : Bytes) (file : Option Bytes) (o : Outcome)
      → Stays Quiet (put_chunk dir name offset bytes file o)
  unfolding put_chunk
  Quiet-put_chunk dir name offset bytes none o = record { at = λ w. Quiet-same w _ refl refl }
  Quiet-put_chunk dir name offset bytes (some f) done = record {
    at = λ w. Quiet-same w _ refl refl;
  }
  Quiet-put_chunk dir name offset bytes (some f) failed = record {
    at = λ w. Quiet-same w _ refl refl;
  }
  Quiet-put_chunk dir name offset bytes (some f) (torn n) = record {
    at = λ w. Quiet-same w _ refl refl;
  }

  Quiet-put_chunks : (dir name : String) (cs : List Chunk) → Stays Quiet (put_chunks dir name cs)
  unfolding put_chunks
  Quiet-put_chunks dir name [] = Stays-pure Quiet-order _
  Quiet-put_chunks dir name ((offset, bytes) ∷ rest) = Stays-bind Quiet-order _ _ Quiet-access λ _.
      Stays-bind Quiet-order _ _ Quiet-outcome λ o.
        Stays-bind Quiet-order _ _ (Stays-gets Quiet-order _) λ file.
          Stays-bind Quiet-order _ _ (Quiet-put_chunk dir name offset bytes file o)
            λ _. Quiet-put_chunks dir name rest

  Quiet-create :
      (dir name : String) (there : Bool) (o : Outcome) → Stays Quiet (create dir name there o)
  unfolding create
  Quiet-create dir name true o = Quiet-step o _ (λ w. refl) (λ w. refl)
  Quiet-create dir name false o = Stays-raise Quiet-order _

  pub Quiet-write_hmi_file :
      (digest title : String) (cs : List Chunk) → Stays Quiet (write_hmi_file digest title cs)
  unfolding write_hmi_file
  Quiet-write_hmi_file digest title cs =
      Stays-bind Quiet-order _ _ (Stays-lift Quiet-order _) λ path.
        Stays-bind Quiet-order _ _ Quiet-outcome λ o.
          Stays-bind Quiet-order _ _ (Stays-gets Quiet-order _) λ there.
            Stays-bind Quiet-order _ _ (Quiet-create path.0 path.1 there o) λ _.
              Stays-bind Quiet-order _ _ (Quiet-put_chunks path.0 path.1 (sort_chunks cs))
                λ _. Quiet-access
