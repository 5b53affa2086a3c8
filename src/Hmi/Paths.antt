-- ===== src/Hmi/Paths.antt =====
-- The files that an image refers to (crates/mirum-vm-hmi/src/lib.rs, `Validation::path` and
-- `MachineImage::referenced_paths`): where they can lie, and when two of them are one file.
use Prim.Native.Char.{Char, code}
use text.Mathlib.TextLemmas.{append-nil, append_cancel_left}
use mirum.Base.{
  ℕ, String, ◌<>◌, ◌≡◌, ◌≢◌, refl, sym, ◌∙◌, ap, false, List, [], ◌∷◌, ◌++◌, arith, All, All-append,
  Distinct, ◌==◌, Bool-cases, inl, inr, ok,
}
use mirum.Base.Text.{
  codes-append, codes, root_dir, segments, push_segment, segment_component, later_components,
  path_components, components,
}
use mirum.Hmi.Types.{
  Boot, bios, uefi, linux, unknown, Disk, disk_paths, all_boot_paths, MachineImage,
  referenced_paths,
}
use mirum.Hmi.Json.{Json}
use mirum.Hmi.Validation.{is_unsafe_path}
use mirum.Hmi.Validate.{validate}
use mirum.Hmi.Spec.{IsBelow, IsValidDisk, IsValidBoot}
use mirum.Hmi.Parts.{is_unsafe_path_iff, segments-cons}
use mirum.Hmi.Valid.{validate_iff}

disk_paths-IsBelow : (ds : List Disk) → All IsValidDisk ds → All IsBelow (disk_paths ds)
disk_paths-IsBelow [] h = tt
disk_paths-IsBelow (d ∷ ds) h = (h.0.path, disk_paths-IsBelow ds h.1)

all_boot_paths-IsBelow :
    {V : Type 0} (bs : List (Boot V)) → All IsValidBoot bs → All IsBelow (all_boot_paths bs)
all_boot_paths-IsBelow [] h = tt
all_boot_paths-IsBelow (bios b ∷ bs) h = all_boot_paths-IsBelow bs h.1
all_boot_paths-IsBelow (uefi b ∷ bs) h = all_boot_paths-IsBelow bs h.1
all_boot_paths-IsBelow (linux b ∷ bs) h = (h.0.2.path, (h.0.3.path, all_boot_paths-IsBelow bs h.1))
all_boot_paths-IsBelow (unknown b ∷ bs) h = all_boot_paths-IsBelow bs h.1

-- In an image that `validate` accepts, the paths that `referenced_paths` yields are pairwise
-- different, and each leads from the directory that it is joined to only downwards.
pub validate-referenced_paths :
    (J : Json) (image : MachineImage J.Value)
    → validate J image ≡ ok tt
    → Distinct (referenced_paths image) × All IsBelow (referenced_paths image)
unfolding referenced_paths
validate-referenced_paths J image h =
    let v = (validate_iff J image).0 h in
    (
      v.paths,
      All-append IsBelow (disk_paths image.disks) (all_boot_paths image.machine.boot)
          (disk_paths-IsBelow image.disks v.disks)
          (all_boot_paths-IsBelow image.machine.boot v.machine.boot),
    )

push_segment-append :
    (c : ℕ) (s : List ℕ) (rest : List (List ℕ))
    → push_segment c ((s ∷ rest) ++ [] ∷ []) ≡ push_segment c (s ∷ rest) ++ [] ∷ []
unfolding push_segment
push_segment-append c s rest = elim (Bool-cases (c == b'/')) [
  | inl slash ↦ rw slash
  | inr other ↦ rw other
]

segments-append_slash : (cs : List ℕ) → segments (cs ++ b'/' ∷ []) ≡ segments cs ++ [] ∷ []
unfolding segments
segments-append_slash [] = refl
segments-append_slash (c ∷ cs) =
    let (s, rest, e) = segments-cons cs in
    ap (push_segment c) (segments-append_slash cs) ∙ rw e (push_segment-append c s rest)

later_components-append_empty :
    (ss : List (List ℕ)) → later_components (ss ++ [] ∷ []) ≡ later_components ss
unfolding later_components
later_components-append_empty [] = refl
later_components-append_empty (s ∷ ss) = ap (segment_component s) (later_components-append_empty ss)

path_components-push_segment :
    (c : ℕ) (s : List ℕ) (rest : List (List ℕ))
    → path_components (push_segment c (s ∷ rest) ++ [] ∷ [])
      ≡ path_components (push_segment c (s ∷ rest))
unfolding path_components push_segment
path_components-push_segment c s rest = elim (Bool-cases (c == b'/')) [
  | inl slash ↦ rw slash (ap (λ l. root_dir ∷ l) (later_components-append_empty (s ∷ rest)))
  | inr other ↦ rw other (plain s)
]
  where
    plain :
        (s : List ℕ)
        → path_components ((c ∷ s) ∷ (rest ++ [] ∷ [])) ≡ path_components ((c ∷ s) ∷ rest)
    plain [] = ground (arith, later_components-append_empty rest)
    plain (d ∷ s) = ap (segment_component (c ∷ d ∷ s)) (later_components-append_empty rest)

components-append_slash :
    (c : Char) (s : String) → components (String.◌∷◌ c s <> "/") ≡ components (String.◌∷◌ c s)
unfolding components
components-append_slash c s =
    let (first, rest, e) = segments-cons (codes s) in
    ap (λ l. path_components (segments l)) (codes-append (String.◌∷◌ c s) "/")
    ∙ ap path_components (segments-append_slash (code c ∷ codes s))
    ∙ rw e (path_components-push_segment (code c) first rest)

append_slash-ne : (s : String) → s <> "/" ≢ s
append_slash-ne s e =
    let same = append_cancel_left s "/" "" (e ∙ sym (append-nil s)) in cc (ap codes same)

-- Whatever path is accepted, so is the path with one more slash at its end, which is another text
-- and stands for the same components: paths that differ as texts may name one file.
pub is_unsafe_path-append_slash :
    (s : String)
    → is_unsafe_path s ≡ false
    → (is_unsafe_path (s <> "/") ≡ false) × (components (s <> "/") ≡ components s) × (s <> "/" ≢ s)
is_unsafe_path-append_slash String.[] h = absurd (((is_unsafe_path_iff "").0 h).0 refl)
is_unsafe_path-append_slash (String.◌∷◌ c s) h =
    let same = components-append_slash c s in
    let below = (is_unsafe_path_iff (String.◌∷◌ c s)).0 h in
    (
      (is_unsafe_path_iff _).1
          (λ e. cc (codes-append (String.◌∷◌ c s) "/", ap codes e), rw same below.1),
      same,
      append_slash-ne (String.◌∷◌ c s),
    )
