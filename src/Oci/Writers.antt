-- ===== src/Oci/Writers.antt =====
-- Several processes on one store, each in `tag_image` of crates/mirum-vm-oci/src/lib.rs: every one of
-- them reads `index.json`, and later writes what it has made of it. No operation fails.
pub mod Races
use mirum.Base.{ℕ, String, ◌≡◌, List, [], ◌∷◌, ◌++◌}
use mirum.Oci.Types.{OciImageIndex}
use mirum.Oci.Index.{index_set}

-- The arguments of a call.
pub record Tag : Type 0 where
  pub reference : String
  pub digest : String
  pub size : ℕ

-- The file, the calls that have read it with what they have read, and those that have written it, the
-- last one first.
pub record Shared : Type 0 where
  pub index : OciImageIndex
  pub reading : List (Tag × OciImageIndex)
  pub written : List Tag

-- What a call writes.
abbrev pub tagged : Tag → OciImageIndex → OciImageIndex
tagged tag seen = index_set seen tag.reference tag.digest tag.size

pub data Step : Shared → Shared → Type 0 where
  reads : {s : Shared} (tag : Tag) → Step s (record s { reading = (tag, s.index) ∷ s.reading })
  writes :
      {s : Shared} (before : List (Tag × OciImageIndex)) (tag : Tag) (seen : OciImageIndex)
      (after : List (Tag × OciImageIndex))
      → s.reading ≡ before ++ (tag, seen) ∷ after
      → Step s
          (record { index = tagged tag seen; reading = before ++ after; written = tag ∷ s.written })

pub data Reach (initial : OciImageIndex) : Shared → Type 0 where
  start : Reach initial (record { index = initial; reading = []; written = [] })
  later : {s t : Shared} → Reach initial s → Step s t → Reach initial t
