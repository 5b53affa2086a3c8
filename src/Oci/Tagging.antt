-- ===== src/Oci/Tagging.antt =====
-- How `load` and `pull` of crates/mirum-vm-oci/src/lib.rs change the store, whatever of their
-- operations fails: what they do to the index and to the blobs.
use mirum.Base.{
  String, ℕ, ◌≡◌, refl, ◌∙◌, sym, ap, subst, ◌⊎◌, inl, inr, some, List, arith, Result, ok, err,
  if◌then◌else◌, ◌=s=◌,
}
use mirum.Base.Exec.{
  bind-cases, Stays, Stays-bind, Stays-bind, Stays-pure, Stays-lift, continue, pure, ◌>>=◌,
}
use mirum.Hmi.Json.{Json}
use mirum.Oci.Types.{OciImageIndex}
use mirum.Oci.Index.{index_lookup, index_set, index_lookup-index_set}
use mirum.Oci.World.{
  Error, World, Outcome, done, failed, torn, M, External, good, broken, outcome, step,
}
use mirum.Oci.Storage.{access, is_absent, parse_index, read_index, put_index, write_index}
use mirum.Oci.Storage.Blobs.{IsSound, Grows, Grows-order, Grows-same, KeepsBlobs, Grows-KeepsBlobs}
use mirum.Oci.Storage.Quiet.{Quiet, Quiet-order, Quiet-access}
use mirum.Oci.Images.{ConfigFile, DirEntry, tag_image, load_directory, load}
use mirum.Oci.Registry.{Registry, pull}
use mirum.Oci.Untagged.{Quiet-store_directory, Quiet-store_image}

-- `after` is `before` with the reference tagged: the reference stands for the digest, and every other
-- one for what it stood for.
pub record IsTagged (reference digest : String) (before after : OciImageIndex) : Type 0 where
  pub lookup :
      (s : String)
      → index_lookup after s ≡ (if reference =s= s then some digest else index_lookup before s)

-- The index when an image was tagged, or could not be.
abbrev pub IndexAfter : String → World → Result Error String × World → Type 0
IndexAfter reference w (ok digest, w') =
    (before : OciImageIndex) × (after : OciImageIndex) × (parse_index w.index ≡ ok before)
    × (w'.index ≡ good after)
    × IsTagged reference digest before after
IndexAfter reference w (err e, w') = (w'.index ≡ w.index) ⊎ (w'.index ≡ broken)

index-read_index : (w : World) → (read_index w).1.index ≡ w.index
unfolding read_index ◌>>=◌ access outcome step is_absent parse_index
index-read_index w = ground arith

read_index_of :
    (w : World) {index : OciImageIndex} {w' : World}
    → read_index w ≡ (ok index, w')
    → parse_index w.index ≡ ok index
unfolding read_index ◌>>=◌ access outcome step is_absent parse_index
read_index_of w h = ground arith

-- How writing the index ends.
IsWritten : OciImageIndex → World → Result Error (Unit {0}) × World → Type 0
IsWritten index w (ok u, w') = w'.index ≡ good index
IsWritten index w (err e, w') = (w'.index ≡ w.index) ⊎ (w'.index ≡ broken)

put_index-IsWritten :
    (index : OciImageIndex) (o : Outcome) (v w : World)
    → v.index ≡ w.index
    → IsWritten index w (put_index index o v)
unfolding put_index IsWritten
put_index-IsWritten index done v w e = refl
put_index-IsWritten index failed v w e = inl e
put_index-IsWritten index (torn n) v w e = inr refl

write_index-IsWritten :
    (index : OciImageIndex) (w : World) → IsWritten index w (write_index index w)
unfolding write_index ◌>>=◌ outcome
write_index-IsWritten index w = put_index-IsWritten index _ _ w refl

-- How tagging ends.
IsEnded : String → String → ℕ → World → Result Error (Unit {0}) × World → Type 0
IsEnded reference digest size w (ok u, w') =
    (before : OciImageIndex) × (parse_index w.index ≡ ok before)
    × (w'.index ≡ good (index_set before reference digest size))
IsEnded reference digest size w (err e, w') = (w'.index ≡ w.index) ⊎ (w'.index ≡ broken)

tag_image-IsEnded :
    (reference digest : String) (size : ℕ) (w : World)
    → IsEnded reference digest size w (tag_image reference digest size w)
unfolding tag_image IsEnded IsWritten
tag_image-IsEnded reference digest size w =
    go (bind-cases read_index (λ index. write_index (index_set index reference digest size)) w)
  where
    written :
        (before : OciImageIndex) (t : World) (p : Result Error (Unit {0}) × World)
        → parse_index w.index ≡ ok before
        → t.index ≡ w.index
        → IsWritten (index_set before reference digest size) t p
        → IsEnded reference digest size w p
    written before t (ok u, w') parsed same i = (before, parsed, i)
    written before t (err e, w') parsed same (inl i) = inl (i ∙ same)
    written before t (err e, w') parsed same (inr i) = inr i

    same : {r : Result Error OciImageIndex} {t : World} → read_index w ≡ (r, t) → t.index ≡ w.index
    same e = sym (ap (λ p. p.1.index) e) ∙ index-read_index w

    go :
        ((before : OciImageIndex) × (t : World) × (read_index w ≡ (ok before, t))
            × (tag_image reference digest size w
                ≡ write_index (index_set before reference digest size) t))
          ⊎ ((e : Error) × (t : World) × (read_index w ≡ (err e, t))
              × (tag_image reference digest size w ≡ (err e, t)))
        → IsEnded reference digest size w (tag_image reference digest size w)
    go (inl (before, t, e, q)) =
        subst (IsEnded reference digest size w) (sym q)
          (written before t _ (read_index_of w e) (same e) (write_index-IsWritten _ t))
    go (inr (x, t, e, q)) = subst (IsEnded reference digest size w) (sym q) (inl (same e))

tag_image-index :
    (reference digest : String) (size : ℕ) (w : World)
    → IndexAfter reference w ((tag_image reference digest size >>= λ _. pure digest) w)
unfolding ◌>>=◌ IsEnded
tag_image-index reference digest size w =
    go (tag_image reference digest size w) (tag_image-IsEnded reference digest size w)
  where
    go :
        (p : Result Error (Unit {0}) × World)
        → IsEnded reference digest size w p
        → IndexAfter reference w (continue p.0 (λ _. pure digest) p.1)
    go (ok u, w') (before, parsed, written) = (
      before,
      index_set before reference digest size,
      parsed,
      written,
      record { lookup = λ s. index_lookup-index_set before reference s digest size },
    )
    go (err e, w') i = i

blobs-tag_image :
    (reference digest : String) (size : ℕ) (w : World)
    → (tag_image reference digest size w).1.blobs ≡ w.blobs
unfolding tag_image read_index ◌>>=◌ access outcome step is_absent parse_index write_index put_index
blobs-tag_image reference digest size w = ground arith

module _ (X : External) where
  -- Tagging an image, or failing to.
  pub record Tags (reference : String) (m : M String) : Type 0 where
    pub grows : Stays (Grows X) m
    pub index : (w : World) → IndexAfter reference w (m w)

  Tags-tag_image :
      (reference digest : String) (size : ℕ)
      → Tags reference (tag_image reference digest size >>= λ _. pure digest)
  Tags-tag_image reference digest size = record {
    grows =
        Stays-bind (Grows-order X) _ _
          (record { at = λ w. Grows-same X w _ (blobs-tag_image reference digest size w) })
          (λ _. Stays-pure (Grows-order X) _);
    index = tag_image-index reference digest size;
  }

  -- What comes first and leaves the index alone changes nothing about this.
  module _ {A : Type 0} (reference : String) (m : M A) (f : A → M String) where
    Tags-bind : Stays (Quiet X) m → ((a : A) → Tags reference (f a)) → Tags reference (m >>= f)
    Tags-bind quiet tags = record {
      grows =
          Stays-bind (Grows-order X) m f (record { at = λ w. (quiet.at w).grows })
            (λ a. (tags a).grows);
      index = λ w. go w (bind-cases m f w);
    }
      where
        later :
            (w t : World) (p : Result Error String × World)
            → t.index ≡ w.index
            → IndexAfter reference t p
            → IndexAfter reference w p
        later w t (ok digest, w') e (before, after, parsed, i, tagged) =
            (before, after, ap parse_index (sym e) ∙ parsed, i, tagged)
        later w t (err x, w') e (inl i) = inl (i ∙ e)
        later w t (err x, w') e (inr i) = inr i

        same : (w : World) {r : Result Error A} {t : World} → m w ≡ (r, t) → t.index ≡ w.index
        same w e = sym (ap (λ p. p.1.index) e) ∙ (quiet.at w).index

        go :
            (w : World)
            → ((a : A) × (t : World) × (m w ≡ (ok a, t)) × ((m >>= f) w ≡ f a t))
              ⊎ ((e : Error) × (t : World) × (m w ≡ (err e, t)) × ((m >>= f) w ≡ (err e, t)))
            → IndexAfter reference w ((m >>= f) w)
        go w (inl (a, t, e, q)) =
            subst (IndexAfter reference w) (sym q) (later w t _ (same w e) ((tags a).index t))
        go w (inr (x, t, e, q)) = subst (IndexAfter reference w) (sym q) (inl (same w e))

  pub load-Tags :
      (J : Json) (path : String) (stat : ConfigFile) (entries : List DirEntry) (reference : String)
      → Tags reference (load X J path stat entries (some reference))
  unfolding load load_directory
  load-Tags J path stat entries reference = Tags-bind reference _ _ (Quiet-access X) λ _.
      Tags-bind reference _ _ (Stays-lift (Quiet-order X) _) λ bytes.
        Tags-bind reference _ _ (Quiet-access X) λ _.
          Tags-bind reference _ _ (Stays-lift (Quiet-order X) _) λ _.
            Tags-bind reference _ _ (Quiet-access X) λ _.
              Tags-bind reference _ _ (Quiet-store_directory X bytes _)
                λ stored. Tags-tag_image reference stored.0 stored.1

  pub pull-Tags : (R : Registry) (reference : String) → Tags reference (pull X R reference)
  unfolding pull
  pull-Tags R reference = Tags-bind reference _ _ (Stays-lift (Quiet-order X) _) λ _.
      Tags-bind reference _ _ (Stays-lift (Quiet-order X) _) λ image.
        Tags-bind reference _ _ (Stays-lift (Quiet-order X) _) λ manifest.
          Tags-bind reference _ _ (Quiet-store_image X image manifest)
            λ stored. Tags-tag_image reference stored.0 stored.1

  -- `load` with a reference, from any sound state of the store and however the file system fails:
  -- the store stays sound and no blob is changed or removed. If it succeeds, the index was good
  -- before and after, and the reference stands for the digest that is returned, every other
  -- reference for what it stood for; if it fails, the index is unchanged or was destroyed by the
  -- failed write of the file.
  pub load-index :
      (J : Json) (path : String) (stat : ConfigFile) (entries : List DirEntry) (reference : String)
      (w : World)
      → IsSound X w
      → let p = load X J path stat entries (some reference) w in
        IsSound X p.1 × KeepsBlobs w p.1 × IndexAfter reference w p
  load-index J path stat entries reference w sound =
      let tags = load-Tags J path stat entries reference in
      ((tags.grows.at w).sound sound, Grows-KeepsBlobs X (tags.grows.at w), tags.index w)

  -- `pull`, whatever the registry returns, from any sound state of the store and however the file
  -- system fails: the store stays sound and no blob is changed or removed. If it succeeds, the index
  -- was good before and after, and the reference stands for the digest that is returned, every other
  -- reference for what it stood for; if it fails, the index is unchanged or was destroyed by the
  -- failed write of the file.
  pub pull-index :
      (R : Registry) (reference : String) (w : World)
      → IsSound X w
      → let p = pull X R reference w in IsSound X p.1 × KeepsBlobs w p.1 × IndexAfter reference w p
  pull-index R reference w sound =
      let tags = pull-Tags R reference in
      ((tags.grows.at w).sound sound, Grows-KeepsBlobs X (tags.grows.at w), tags.index w)
