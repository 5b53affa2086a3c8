-- ===== src/Oci/Writers/Races.antt =====
-- What is left of the tags when several processes write them (crates/mirum-vm-oci/src/lib.rs).
use mirum.Base.{
  String, ◌≡◌, ◌≢◌, refl, ◌∙◌, ◌⊎◌, some, List, [], ◌∷◌, Result, All, Result, ok, arith, eq_iff,
}
use mirum.Oci.Types.{OciImageIndex}
use mirum.Oci.Index.{index_lookup, index_lookup-index_set}
use mirum.Base.Exec.{◌>>=◌}
use mirum.Oci.World.{Error, World, good, outcome, step}
use mirum.Oci.Storage.{access, is_absent, parse_index, read_index, put_index, write_index}
use mirum.Oci.Images.{tag_image}
use mirum.Oci.Writers.{Tag, Shared, tagged, reads, writes, Reach, start, later}

-- One of the calls that have written.
abbrev pub IsAmong : Tag → List Tag → Type 0
IsAmong tag [] = ⊥
IsAmong tag (t ∷ ts) = (tag ≡ t) ⊎ IsAmong tag ts

-- A reference stands for what it stood for at first, or for what one of the calls gave it.
abbrev pub Stands : OciImageIndex → List Tag → OciImageIndex → String → Type 0
Stands initial written index reference =
    (index_lookup index reference ≡ index_lookup initial reference)
    ⊎ ((tag : Tag) × IsAmong tag written
        × (tag.reference ≡ reference)
        × (index_lookup index reference ≡ some tag.digest))

pub record IsFrom (initial : OciImageIndex) (written : List Tag) (index : OciImageIndex)
    : Type 0 where
  pub stands : (reference : String) → Stands initial written index reference

-- The file, and what every call has read.
record Inv (initial : OciImageIndex) (s : Shared) : Type 0 where
  pub index : IsFrom initial s.written s.index
  pub reading : All (λ (p : Tag × OciImageIndex). IsFrom initial s.written p.1) s.reading

-- A tag may be lost: whatever the index is, when two calls tag different references and both read
-- before one of them writes, both come to their end, and the reference of the one that writes first
-- stands for what it stood for at first.
pub Reach-lost :
    (initial : OciImageIndex) (a b : Tag)
    → a.reference ≢ b.reference
    → (s : Shared) × Reach initial s
      × (s.reading ≡ [])
      × (s.written ≡ b ∷ a ∷ [])
      × (index_lookup s.index a.reference ≡ index_lookup initial a.reference)
      × (index_lookup s.index b.reference ≡ some b.digest)
Reach-lost initial a b different = (
  _,
  later
      (later (later (later start (reads a)) (reads b))
        (writes ((b, initial) ∷ []) a initial [] refl))
      (writes [] b initial [] refl),
  refl,
  refl,
  index_lookup-index_set initial b.reference a.reference b.digest b.size
      ∙ ground (arith, different, eq_iff b.reference a.reference),
  index_lookup-index_set initial b.reference b.reference b.digest b.size
      ∙ ground (arith, eq_iff b.reference b.reference),
)

-- A call of `tag_image` that nothing fails for is a read and a write of these.
pub tag_image-tagged :
    (tag : Tag) (w : World) (index : OciImageIndex)
    → w.index ≡ good index
    → w.outcomes ≡ []
    → let p = tag_image tag.reference tag.digest tag.size w in
      (◌≡◌ {A = Result Error (Unit {0})} p.0 (ok tt)) × (p.1.index ≡ good (tagged tag index))
unfolding tag_image read_index ◌>>=◌ access outcome step is_absent parse_index write_index put_index
tag_image-tagged tag w index g o = ground (arith, g, o)
