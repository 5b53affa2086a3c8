-- ===== src/Oci/Index.antt =====
-- `index_lookup` and `index_set` of crates/mirum-vm-oci/src/lib.rs: the tags of the local store.
use mirum.Base.{
  ℕ, ◌+◌, String, ◌≡◌, refl, ◌∙◌, Bool, true, false, Option, none, some, [], ◌∷◌, ◌++◌, arith,
  eq_iff, ◌=s=◌, if◌then◌else◌,
}
use mirum.Oci.Types.{
  get, annotation, ref_name, oci_image_media_type, ImageIndexEntry, OciImageIndex,
}

-- The reference under which an entry is tagged.
abbrev pub tag : ImageIndexEntry → Option String
tag m = annotation m.annotations ref_name

abbrev is_named : String → Option String → Bool
is_named reference none = false
is_named reference (some name) = name =s= reference

-- `m.annotations…get(REF_NAME) == Some(reference)`.
unfoldable pub is_tagged : String → ImageIndexEntry → Bool
is_tagged reference m = is_named reference (tag m)

unfoldable pub index_lookup : OciImageIndex → String → Option String
index_lookup [] reference = none
index_lookup (m ∷ ms) reference =
    if is_tagged reference m then some m.digest else index_lookup ms reference

-- `manifests.retain(…)`.
unfoldable pub retain_others : OciImageIndex → String → OciImageIndex
retain_others [] reference = []
retain_others (m ∷ ms) reference =
    let rest = retain_others ms reference in if is_tagged reference m then rest else m ∷ rest

abbrev pub index_entry : String → String → ℕ → ImageIndexEntry
index_entry reference digest size = record {
  media_type = oci_image_media_type;
  digest = digest;
  size = size;
  annotations = some ((ref_name, reference) ∷ []);
}

unfoldable pub index_set : OciImageIndex → String → String → ℕ → OciImageIndex
unfolding retain_others
index_set index reference digest size =
    retain_others index reference ++ index_entry reference digest size ∷ []

is_tagged-index_entry : (r s d : String) (n : ℕ) → is_tagged r (index_entry s d n) ≡ (s =s= r)
unfolding is_tagged get
is_tagged-index_entry r s d n = refl

is_named-same :
    (r s : String) (name : Option String) → is_named r name ≡ true → is_named s name ≡ (r =s= s)
is_named-same r s none h = cc
is_named-same r s (some name) h = ground (arith, eq_iff name r)

is_tagged-same :
    (r s : String) (m : ImageIndexEntry) → is_tagged r m ≡ true → is_tagged s m ≡ (r =s= s)
unfolding is_tagged
is_tagged-same r s m h = is_named-same r s (tag m) h

index_lookup-retain_others :
    (index : OciImageIndex) (r s : String)
    → index_lookup (retain_others index r) s ≡ (if r =s= s then none else index_lookup index s)
unfolding index_lookup retain_others
index_lookup-retain_others [] r s = ground arith
index_lookup-retain_others (m ∷ ms) r s =
    ground (arith, is_tagged-same r s m, eq_iff r s, index_lookup-retain_others ms r s)

abbrev otherwise : Option String → Option String → Option String
otherwise none b = b
otherwise (some a) b = some a

index_lookup-append :
    (index rest : OciImageIndex) (s : String)
    → index_lookup (index ++ rest) s ≡ otherwise (index_lookup index s) (index_lookup rest s)
unfolding index_lookup
index_lookup-append [] rest s = refl
index_lookup-append (m ∷ ms) rest s = ground (arith, index_lookup-append ms rest s)

-- After `index_set` the reference stands for the new digest, and every other reference for what it
-- stood for before.
pub index_lookup-index_set :
    (index : OciImageIndex) (r s d : String) (n : ℕ)
    → index_lookup (index_set index r d n) s ≡ (if r =s= s then some d else index_lookup index s)
unfolding index_set
index_lookup-index_set index r s d n =
    index_lookup-append (retain_others index r) (index_entry r d n ∷ []) s
    ∙ rw (index_lookup-retain_others index r s) (last (index_lookup index s))
  where
    last :
        (o : Option String)
        → otherwise (if r =s= s then none else o) (index_lookup (index_entry r d n ∷ []) s)
          ≡ (if r =s= s then some d else o)
    last o = unfold index_lookup in ground (arith, is_tagged-index_entry s r d n)

-- How many entries of the index a reference has.
abbrev pub tagged_count : OciImageIndex → String → ℕ
tagged_count [] s = 0
tagged_count (m ∷ ms) s = (if is_tagged s m then 1 else 0) + tagged_count ms s

tagged_count-retain_others :
    (index : OciImageIndex) (r s : String)
    → tagged_count (retain_others index r) s ≡ (if r =s= s then 0 else tagged_count index s)
unfolding retain_others
tagged_count-retain_others [] r s = ground arith
tagged_count-retain_others (m ∷ ms) r s =
    ground (arith, is_tagged-same r s m, eq_iff r s, tagged_count-retain_others ms r s)

tagged_count-append :
    (index rest : OciImageIndex) (s : String)
    → tagged_count (index ++ rest) s ≡ tagged_count index s + tagged_count rest s
tagged_count-append [] rest s = omega arith
tagged_count-append (m ∷ ms) rest s = omega (arith, tagged_count-append ms rest s)

-- After `index_set` the reference has one entry, however many it had, and every other reference has
-- as many as before.
pub tagged_count-index_set :
    (index : OciImageIndex) (r s d : String) (n : ℕ)
    → tagged_count (index_set index r d n) s ≡ (if r =s= s then 1 else tagged_count index s)
unfolding index_set
tagged_count-index_set index r s d n =
    tagged_count-append (retain_others index r) (index_entry r d n ∷ []) s
    ∙ ground (arith, tagged_count-retain_others index r s, is_tagged-index_entry s r d n)
