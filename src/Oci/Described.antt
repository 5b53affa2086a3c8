-- ===== src/Oci/Described.antt =====
-- What `write_file_chunks` of crates/mirum-vm-oci/src/lib.rs says about a file: its descriptors are
-- those of the chunks of the file.
use mirum.Base.{
  ℕ, zero, suc, ◌+◌, String, ◌≡◌, refl, sym, ap, ◌∙◌, subst, Bool, true, false, Option, none, some,
  List, [], ◌∷◌, All, length, ok, take, drop, is_empty, ltb, if◌then◌else◌, arith,
}
use mirum.Base.Exec.{raise, bind-eq-ok, pure-eq-ok, lift-eq-ok, pure, ◌>>=◌}
use mirum.Oci.Types.{Bytes, OciDescriptor}
use mirum.Oci.Chunks.{Chunk, read_chunks, file_chunks}
use mirum.Oci.World.{World, M, External}
use mirum.Oci.Storage.{access, found, sha256_hex, write_blob}
use mirum.Oci.Storage.Blobs.{write_blob-IsStored}
use mirum.Oci.Images.{chunk_descriptor, write_chunk, write_rounds, write_file_chunks, not_empty}
use mirum.Oci.RoundTrip.{Sent, chunks_of}

found-eq-ok :
    (o : Option Bytes) (w : World) {b : Bytes} {w' : World} → found o w ≡ (ok b, w') → o ≡ some b
unfolding found raise
found-eq-ok none w h = cc
found-eq-ok (some c) w h = ap some (pure-eq-ok c w h).0

not_empty-eq-ok :
    (title : String) (ds : List OciDescriptor) {es : List OciDescriptor}
    → not_empty title ds ≡ ok es
    → (ds ≡ es) × (is_empty es ≡ false)
unfolding not_empty
not_empty-eq-ok title ds h = ground arith

module _ (X : External) where
  abbrev pub descriptor_of : String → Sent → OciDescriptor
  descriptor_of title ((offset, bytes), compressed) =
      chunk_descriptor title offset (length bytes) (sha256_hex X compressed) (length compressed)

  abbrev pub descriptors_of : String → List Sent → List OciDescriptor
  descriptors_of title [] = []
  descriptors_of title (s ∷ ss) = descriptor_of title s ∷ descriptors_of title ss

  -- The descriptors of these chunks, each compressed.
  abbrev pub Describes : String → List Chunk → List OciDescriptor → Type 0
  Describes title chunks ds =
      (ss : List Sent) × (chunks_of ss ≡ chunks)
      × All (λ (s : Sent). X.compress s.0.1 ≡ some s.1) ss
      × (ds ≡ descriptors_of title ss)

  write_chunk-eq-ok :
      (title : String) (offset : ℕ) (buf : Bytes) (w : World) {d : OciDescriptor} {w' : World}
      → write_chunk X title offset buf w ≡ (ok d, w')
      → (c : Bytes) × (X.compress buf ≡ some c) × (d ≡ descriptor_of title ((offset, buf), c))
  unfolding write_chunk
  write_chunk-eq-ok title offset buf w h =
      let (c, w₁, compressed, then₁) = bind-eq-ok (found (X.compress buf)) _ w h in
      let (digest, w₂, written, then₂) = bind-eq-ok (write_blob X c) _ w₁ then₁ in
      let made =
        (pure-eq-ok (chunk_descriptor title offset (length buf) digest (length c)) w₂ then₂).0 in
      (
        c,
        found-eq-ok (X.compress buf) w compressed,
        sym made
            ∙ ap (λ n. chunk_descriptor title offset (length buf) n (length c))
                (write_blob-IsStored X c w₁ written).0,
      )

  Describes-cons :
      (title : String) (offset : ℕ) (buf : Bytes) (d : OciDescriptor) (chunks : List Chunk)
      (ds : List OciDescriptor)
      → (c : Bytes) × (X.compress buf ≡ some c) × (d ≡ descriptor_of title ((offset, buf), c))
      → Describes title chunks ds
      → Describes title ((offset, buf) ∷ chunks) (d ∷ ds)
  Describes-cons title offset buf d chunks ds (c, compressed, same)
        (ss, split, all_sent, described) =
      (
        ((offset, buf), c) ∷ ss,
        ap (λ l. (offset, buf) ∷ l) split,
        (compressed, all_sent),
        cc (same, described),
      )

  -- One round, for any rounds after it that describe the chunks after it.
  round-Describes :
      (title : String) (offset : ℕ) (buf : Bytes) (e l : Bool) (more : M (List OciDescriptor))
      (later : List Chunk) (w : World) {ds : List OciDescriptor} {w' : World}
      → (if e
            then pure []
            else (write_chunk X title offset buf >>= λ d.
                (if l then pure [] else more) >>= λ ds. pure (d ∷ ds)))
          w
        ≡ (ok ds, w')
      → ((v : World) (es : List OciDescriptor) (v' : World)
          → more v ≡ (ok es, v')
          → Describes title later es)
      → Describes title
          (if e then [] else if l then (offset, buf) ∷ [] else (offset, buf) ∷ later)
          ds
  round-Describes title offset buf true l more later w h ih =
      ([], refl, tt, sym (pure-eq-ok [] w h).0)
  round-Describes title offset buf false l more later w h ih =
      let (d, w₁, written, then₁) = bind-eq-ok (write_chunk X title offset buf) _ w h in
      let (es, w₂, others, then₂) = bind-eq-ok (if l then pure [] else more) _ w₁ then₁ in
      subst (Describes title (if l then (offset, buf) ∷ [] else (offset, buf) ∷ later))
        (pure-eq-ok (d ∷ es) w₂ then₂).0
        (go l d es (write_chunk-eq-ok title offset buf w written) w₁ w₂ others)
    where
      go :
          (l : Bool) (d : OciDescriptor) (es : List OciDescriptor)
          → (c : Bytes) × (X.compress buf ≡ some c) × (d ≡ descriptor_of title ((offset, buf), c))
          → (v v' : World) → (if l then pure [] else more) v ≡ (ok es, v')
          → Describes title (if l then (offset, buf) ∷ [] else (offset, buf) ∷ later) (d ∷ es)
      go true d es one v v' k =
          Describes-cons title offset buf d [] es one ([], refl, tt, sym (pure-eq-ok [] v k).0)
      go false d es one v v' k = Describes-cons title offset buf d later es one (ih v es v' k)

  write_rounds-Describes :
      (size : ℕ) (title : String) (fuel offset : ℕ) (rest : Bytes) (w : World)
      {ds : List OciDescriptor} {w' : World}
      → write_rounds X size title fuel offset rest w ≡ (ok ds, w')
      → Describes title (read_chunks size fuel offset rest) ds
  unfolding write_rounds read_chunks
  write_rounds-Describes size title zero offset rest w h = ([], refl, tt, sym (pure-eq-ok [] w h).0)
  write_rounds-Describes size title (suc fuel) offset rest w h =
      let (u, w₁, opened, then₁) = bind-eq-ok access _ w h in
      round-Describes title offset (take size rest) (is_empty (take size rest))
        (ltb (length (take size rest)) size) _ _ w₁ then₁
        (λ v es v' k.
          write_rounds-Describes size title fuel (offset + length (take size rest)) (drop size rest)
            v k)

  -- When `write_file_chunks` succeeds, the file is not empty, and the descriptors are those of the
  -- chunks of the file, in their order: each has the title, the offset and the length of its chunk,
  -- and the digest and the size of the compressed bytes.
  pub write_file_chunks-Describes :
      (size : ℕ) (title : String) (file : Bytes) (w : World) {ds : List OciDescriptor} {w' : World}
      → write_file_chunks X size title file w ≡ (ok ds, w')
      → (is_empty ds ≡ false) × Describes title (file_chunks size file) ds
  unfolding write_file_chunks
  write_file_chunks-Describes size title file w h =
      let (u, w₁, opened, then₁) = bind-eq-ok access _ w h in
      let (es, w₂, rounds, then₂) =
        bind-eq-ok (write_rounds X size title (suc (length file)) 0 file) _ w₁ then₁ in
      let (same, some_chunk) =
        not_empty-eq-ok title es (lift-eq-ok (not_empty title es) w₂ then₂).0 in
      (
        some_chunk,
        subst (Describes title (file_chunks size file)) same
            (write_rounds-Describes size title (suc (length file)) 0 file w₁ rounds),
      )
