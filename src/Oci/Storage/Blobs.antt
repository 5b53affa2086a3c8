-- ===== src/Oci/Storage/Blobs.antt =====
-- The blobs are content-addressed: what is stored under a name has the digest of that name, and it
-- stays there unchanged, whatever operation of the file system fails.
use mirum.Base.{
  String, ◌≡◌, refl, ◌∙◌, ap, sym, subst, true, Option, none, some, [], arith, eq_iff, ok, is_some,
  ◌⊎◌, inl, inr,
}
use mirum.Base.Exec.{
  bind-eq-ok, lift-eq-ok, pure-eq-ok, IsOrder, Stays, lift, ◌>>=◌, Stays-bind, Stays-bind-lift,
  Stays-pure,
}
use mirum.Oci.Types.{Bytes}
use mirum.Oci.World.{World, External, outcome, step}
use mirum.Oci.Storage.{
  blob_path, access, found, write_temporary, rename, store_blob, store_named, sha256_hex,
  write_blob, read_blob,
}
use mirum.Oci.Storage.Names.{safe_component_iff, strip_sha256-sha256_hex}

-- No blob of `w` is changed or removed in `w'`.
pub record KeepsBlobs (w w' : World) : Type 0 where
  pub at : (name : String) → (w'.blobs name ≡ w.blobs name) ⊎ (w.blobs name ≡ none)

module _ (X : External) where
  pub record IsSound (w : World) : Type 0 where
    pub at : (name : String) (bytes : Bytes) → w.blobs name ≡ some bytes → X.sha256 bytes ≡ name

  -- From `w` to `w'` the store stays sound and no blob changes or goes away.
  pub record Grows (w w' : World) : Type 0 where
    pub sound : IsSound w → IsSound w'
    pub kept :
        (name : String) (bytes : Bytes) → w.blobs name ≡ some bytes → w'.blobs name ≡ some bytes

  pub Grows-KeepsBlobs : {w w' : World} → Grows w w' → KeepsBlobs w w'
  Grows-KeepsBlobs {w} {w'} g = record { at = λ name. go name (w.blobs name) refl }
    where
      go :
          (name : String) (o : Option Bytes)
          → w.blobs name ≡ o
          → (w'.blobs name ≡ w.blobs name) ⊎ (w.blobs name ≡ none)
      go name none e = inr e
      go name (some b) e = inl (g.kept name b e ∙ sym e)

  pub Grows-order : IsOrder Grows
  Grows-order = record {
    refl = λ w. record { sound = λ h. h; kept = λ n b h. h };
    trans = λ s t u h k. record {
      sound = λ i. k.sound (h.sound i);
      kept = λ n b e. k.kept n b (h.kept n b e);
    };
  }

  -- Nothing is done to the blobs.
  pub Grows-same : (w w' : World) → w'.blobs ≡ w.blobs → Grows w w'
  Grows-same w w' e = record {
    sound = λ h. record {
      at = λ n b q. h.at n b (ground (arith, ap (λ (f : String → Option Bytes). f n) e));
    };
    kept = λ n b q. ground (arith, ap (λ (f : String → Option Bytes). f n) e);
  }

  blob_path-sha256_hex :
      (bytes : Bytes) (name : String)
      → blob_path (sha256_hex X bytes) ≡ ok name
      → name ≡ X.sha256 bytes
  unfolding blob_path
  blob_path-sha256_hex bytes name h =
      ((safe_component_iff _ _ _).0 h).0 ∙ strip_sha256-sha256_hex X bytes

  -- `store_named` leaves every blob alone, but for one that it adds.
  blobs-store_named :
      (name : String) (bytes : Bytes) (w : World) (n : String)
      → ((store_named name bytes w).1.blobs n ≡ w.blobs n)
        ⊎ ((w.blobs name ≡ none) × (n ≡ name) × ((store_named name bytes w).1.blobs n ≡ some bytes))
  unfolding store_named ◌>>=◌ access outcome step store_blob write_temporary rename
  blobs-store_named name bytes w n = ground (arith, eq_iff name n, eq_iff name name)

  store_named-Grows :
      (name : String) (bytes : Bytes) → name ≡ X.sha256 bytes → Stays Grows (store_named name bytes)
  store_named-Grows name bytes e = record {
    at = λ w. record {
      sound = λ h. record {
        at = λ n b q. let c = blobs-store_named name bytes w n in let i = h.at n b in ground arith;
      };
      kept = λ n b q. let c = blobs-store_named name bytes w n in ground arith;
    };
  }

  pub write_blob-Grows : (bytes : Bytes) → Stays Grows (write_blob X bytes)
  unfolding write_blob
  write_blob-Grows bytes = Stays-bind-lift Grows-order (blob_path (sha256_hex X bytes)) _ λ name e.
      Stays-bind Grows-order _ _ (store_named-Grows name bytes (blob_path-sha256_hex bytes name e))
        (λ _. Stays-pure Grows-order _)

  -- Writing a blob to a sound store, whether or not it comes to an end, keeps the store sound and
  -- changes and removes no blob.
  pub write_blob-IsSound :
      (bytes : Bytes) (w : World)
      → IsSound w
      → let w' = (write_blob X bytes w).1 in IsSound w' × KeepsBlobs w w'
  write_blob-IsSound bytes w sound =
      let grows = (write_blob-Grows bytes).at w in (grows.sound sound, Grows-KeepsBlobs grows)

  -- What a successful write has done to the blob of a name.
  abbrev pub IsStored : String → Bytes → World → World → Type 0
  IsStored name bytes w w' =
      ((w.blobs name ≡ none) × (w'.blobs name ≡ some bytes))
      ⊎ ((is_some (w.blobs name) ≡ true) × (w'.blobs name ≡ w.blobs name))

  -- After a successful write there is a blob: the one that was there, or the one written.
  store_named-IsStored :
      (name : String) (bytes : Bytes) (w : World) {w' : World}
      → store_named name bytes w ≡ (ok tt, w')
      → IsStored name bytes w w'
  unfolding store_named ◌>>=◌ access outcome step store_blob write_temporary rename
  store_named-IsStored name bytes w h = ground (arith, eq_iff name name)

  read_blob_of :
      (digest name : String) (b : Bytes) (v : World)
      → blob_path digest ≡ ok name
      → v.blobs name ≡ some b
      → v.outcomes ≡ []
      → (read_blob digest v).0 ≡ ok b
  unfolding read_blob ◌>>=◌ access outcome step found
  read_blob_of digest name b v p h o = ground arith

  -- What `write_blob` has done when it succeeds.
  pub write_blob-IsStored :
      (bytes : Bytes) (w : World) {digest : String} {w' : World}
      → write_blob X bytes w ≡ (ok digest, w')
      → (digest ≡ sha256_hex X bytes)
        × (blob_path digest ≡ ok (X.sha256 bytes))
        × IsStored (X.sha256 bytes) bytes w w'
  unfolding write_blob
  write_blob-IsStored bytes w {digest} {w'} h =
      let (name, w₁, looked, then₁) = bind-eq-ok (lift (blob_path (sha256_hex X bytes))) _ w h in
      let (done₂, w₂, stored, then₂) = bind-eq-ok (store_named name bytes) _ w₁ then₁ in
      let path = lift-eq-ok (blob_path (sha256_hex X bytes)) w looked in
      let end = pure-eq-ok (sha256_hex X bytes) w₂ then₂ in
      let named = blob_path-sha256_hex bytes name path.0 in
      (
        sym end.0,
        subst (λ d. blob_path d ≡ ok (X.sha256 bytes)) end.0 (path.0 ∙ ap ok named),
        subst (λ n. IsStored n bytes w w') named
            (subst (λ u. IsStored name bytes u w') path.1
              (subst (λ u. IsStored name bytes w₁ u) (sym end.1)
                (store_named-IsStored name bytes w₁ stored))),
      )

  -- After a successful write to a sound store, in every later state that keeps its blobs, reading the
  -- digest gives, if the file system does not fail, bytes that have the digest of the bytes written:
  -- they are the bytes written, or the blob that stood under this digest before.
  pub write_blob-read_blob :
      (bytes : Bytes) (w : World) {digest : String} {w' : World} (v : World)
      → IsSound w
      → write_blob X bytes w ≡ (ok digest, w')
      → KeepsBlobs w' v
      → v.outcomes ≡ []
      → (b : Bytes) × ((read_blob digest v).0 ≡ ok b)
        × (X.sha256 b ≡ X.sha256 bytes)
        × ((b ≡ bytes) ⊎ (w.blobs (X.sha256 bytes) ≡ some b))
  unfolding write_blob
  write_blob-read_blob bytes w {digest} {w'} v sound h keeps calm =
      let (named, path, stored) = write_blob-IsStored bytes w h in go path stored
    where
      kept :
          (b : Bytes)
          → w'.blobs (X.sha256 bytes) ≡ some b
          → (v.blobs (X.sha256 bytes) ≡ w'.blobs (X.sha256 bytes))
            ⊎ (w'.blobs (X.sha256 bytes) ≡ none)
          → v.blobs (X.sha256 bytes) ≡ some b
      kept b p (inl e) = e ∙ p
      kept b p (inr e) = cc

      reads :
          (b : Bytes)
          → blob_path digest ≡ ok (X.sha256 bytes)
          → w'.blobs (X.sha256 bytes) ≡ some b
          → (read_blob digest v).0 ≡ ok b
      reads b path p =
          read_blob_of digest (X.sha256 bytes) b v path (kept b p (keeps.at (X.sha256 bytes))) calm

      old :
          (o : Option Bytes)
          → w.blobs (X.sha256 bytes) ≡ o
          → is_some o ≡ true
          → (b : Bytes) × (o ≡ some b)
      old none e i = cc
      old (some b) e i = (b, refl)

      go :
          blob_path digest ≡ ok (X.sha256 bytes)
          → IsStored (X.sha256 bytes) bytes w w'
          → (b : Bytes) × ((read_blob digest v).0 ≡ ok b)
            × (X.sha256 b ≡ X.sha256 bytes)
            × ((b ≡ bytes) ⊎ (w.blobs (X.sha256 bytes) ≡ some b))
      go path (inl (absent, new)) = (bytes, reads bytes path new, refl, inl refl)
      go path (inr (there, same)) =
          let (b, e) = old (w.blobs (X.sha256 bytes)) refl there in
          (b, reads b path (same ∙ e), sound.at _ b e, inr e)
