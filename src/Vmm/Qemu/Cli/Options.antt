-- ===== src/Vmm/Qemu/Cli/Options.antt =====
-- What qemu reads in the value of `-drive` that crates/mirum-vm-vmm/src/backend/qemu/cli.rs makes. qemu
-- takes a comma that is not doubled for the end of an option.
use mathlib.Core.List.{append_assoc}
use text.Mathlib.TextLemmas.{append_assoc as text_assoc}
use mirum.Base.{
  ℕ, String, ◌<>◌, ◌≡◌, refl, sym, ap, subst, ◌∙◌, Bool, true, false, List, [], ◌∷◌, ◌++◌, All,
  All-append, ◌==◌, if◌then◌else◌,
}
use mirum.Base.Text.{codes, codes-append}
use mirum.Hmi.Validation.{is_unsafe_path}
use mirum.Vmm.Qemu.Cli.Injected.{is_unsafe_path-injected}
use mirum.Vmm.Qemu.Cli.{Drive, DriveInterface, virtio, unattached, interface_arg, drive_arg}

abbrev pub IsPlain : ℕ → Type 0
IsPlain c = (c == b',') ≡ false

-- A text in which no comma stands.
abbrev pub HasNoComma : List ℕ → Type 0
HasNoComma l = All IsPlain l

-- A text that does not begin with a comma.
abbrev pub Continues : List ℕ → Type 0
Continues [] = Unit {0}
Continues (c ∷ l) = IsPlain c

-- The options of a drive, in their order.
abbrev pub interface_options : DriveInterface → List (List ℕ)
interface_options virtio = codes "if=virtio" ∷ []
interface_options (unattached id) = (codes "id=" ++ codes id) ∷ codes "if=none" ∷ []

abbrev pub snapshot_options : Bool → List (List ℕ)
snapshot_options true = codes "snapshot=on" ∷ []
snapshot_options false = []

abbrev pub other_options : Drive → List (List ℕ)
other_options d =
    codes "media=disk" ∷ (snapshot_options d.snapshot ++ interface_options d.interface)

abbrev snapshot_codes : Bool → List ℕ
snapshot_codes b = codes (if b then ",snapshot=on" else "")

-- The value after the file.
abbrev others : Drive → List ℕ
others d = codes ",media=disk" ++ (snapshot_codes d.snapshot ++ codes (interface_arg d.interface))

codes-drive_arg : (d : Drive) → codes (drive_arg d) ≡ codes "file=" ++ (codes d.file ++ others d)
unfolding drive_arg
codes-drive_arg d =
    codes-append "file=" _
    ∙ ap (λ l. codes "file=" ++ l) (codes-append d.file _)
    ∙ ap (λ l. codes "file=" ++ (codes d.file ++ l)) (codes-append ",media=disk" _)
    ∙ ap (λ l. codes "file=" ++ (codes d.file ++ (codes ",media=disk" ++ l))) (codes-append _ _)

abbrev HasPlainId : DriveInterface → Type 0
HasPlainId virtio = Unit {0}
HasPlainId (unattached id) = HasNoComma (codes id)

abbrev is_plain : List ℕ → Bool
is_plain [] = true
is_plain (c ∷ l) = if c == b',' then false else is_plain l

first-IsPlain : (b : Bool) (r : Bool) → (if b then false else r) ≡ true → (b ≡ false) × (r ≡ true)
first-IsPlain true r h = cc
first-IsPlain false r h = (refl, h)

is_plain-HasNoComma : (l : List ℕ) → is_plain l ≡ true → HasNoComma l
is_plain-HasNoComma [] h = tt
is_plain-HasNoComma (c ∷ l) h =
    let (first, rest) = first-IsPlain (c == b',') (is_plain l) h in
    (first, is_plain-HasNoComma l rest)

joined :
    (dir target : String)
    → dir <> "/" <> "root,file=/" <> target ≡ (dir <> "/root") <> ",file=" <> "/" <> target
joined dir target =
    ap (λ t. dir <> t)
      (sym (text_assoc "/" "root,file=/" target)
        ∙ text_assoc "/root" ",file=/" target
        ∙ ap (λ t. "/root" <> t) (text_assoc ",file=" "/" target))
    ∙ sym (text_assoc dir "/root" (",file=" <> "/" <> target))

-- How qemu splits the value: at every comma that is not followed by another.
module _ (split : List ℕ → List (List ℕ))
    (split-last : (a : List ℕ) → HasNoComma a → split a ≡ a ∷ [])
    (split-comma : (a b : List ℕ)
      → HasNoComma a
      → Continues b
      → split (a ++ b',' ∷ b) ≡ a ∷ split b) where
  split-interface :
      (i : DriveInterface) (a : List ℕ)
      → HasPlainId i
      → HasNoComma a
      → split (a ++ codes (interface_arg i)) ≡ a ∷ interface_options i
  unfolding interface_arg
  split-interface virtio a p h =
      split-comma a (codes "if=virtio") h refl
      ∙ ap (λ l. a ∷ l)
          (split-last (codes "if=virtio") (is_plain-HasNoComma (codes "if=virtio") refl))
  split-interface (unattached id) a p h =
      ap (λ l. split (a ++ l)) (codes-append ",id=" _)
      ∙ ap (λ l. split (a ++ (codes ",id=" ++ l))) (codes-append id ",if=none")
      ∙ split-comma a _ h refl
      ∙ ap (λ l. a ∷ l)
          (split-comma (codes "id=" ++ codes id) (codes "if=none") (refl, (refl, (refl, p))) refl)
      ∙ ap (λ l. a ∷ (codes "id=" ++ codes id) ∷ l)
          (split-last (codes "if=none") (is_plain-HasNoComma (codes "if=none") refl))

  split-snapshot :
      (b : Bool) (i : DriveInterface) (a : List ℕ)
      → HasPlainId i
      → HasNoComma a
      → split (a ++ (snapshot_codes b ++ codes (interface_arg i)))
        ≡ a ∷ (snapshot_options b ++ interface_options i)
  split-snapshot false i a p h = split-interface i a p h
  split-snapshot true i a p h =
      split-comma a _ h refl
      ∙ ap (λ l. a ∷ l)
          (split-interface i (codes "snapshot=on") p
            (is_plain-HasNoComma (codes "snapshot=on") refl))

  split-others :
      (d : Drive) (a : List ℕ)
      → HasPlainId d.interface
      → HasNoComma a
      → split (a ++ others d) ≡ a ∷ other_options d
  split-others d a p h =
      split-comma a _ h refl
      ∙ ap (λ l. a ∷ l)
          (split-snapshot d.snapshot d.interface (codes "media=disk") p
            (is_plain-HasNoComma (codes "media=disk") refl))

  file_codes : (file : List ℕ) → HasNoComma file → HasNoComma (codes "file=" ++ file)
  file_codes file h = (refl, (refl, (refl, (refl, (refl, h)))))

  -- Of a drive whose file and id have no comma, qemu reads the options for the file, the medium, the
  -- overlay if there is one, and the interface, and no other: when qemu splits at every comma that is
  -- not followed by another.
  pub split-drive_arg :
      (d : Drive)
      → HasNoComma (codes d.file)
      → HasPlainId d.interface
      → split (codes (drive_arg d)) ≡ (codes "file=" ++ codes d.file) ∷ other_options d
  split-drive_arg d h p =
      ap split (codes-drive_arg d)
      ∙ split-others d (codes "file=" ++ codes d.file) p (file_codes (codes d.file) h)

  -- A comma in the name of a file ends it: qemu reads a second file.
  split-two_files :
      (d : Drive) (x y : String)
      → d.file ≡ x <> ",file=" <> y
      → HasNoComma (codes x)
      → HasNoComma (codes y)
      → HasPlainId d.interface
      → split (codes (drive_arg d))
        ≡ (codes "file=" ++ codes x) ∷ (codes "file=" ++ codes y) ∷ other_options d
  split-two_files d x y e h k p =
      ap split (codes-drive_arg d)
      ∙ ap (λ f. split (codes "file=" ++ (f ++ others d)))
          (ap codes e ∙ codes-append x _ ∙ ap (λ l. codes x ++ l) (codes-append ",file=" y))
      ∙ ap (λ l. split (codes "file=" ++ l))
          (append_assoc (codes x) (codes ",file=" ++ codes y) (others d))
      ∙ split-comma (codes "file=" ++ codes x) _ (file_codes (codes x) h) refl
      ∙ ap (λ l. (codes "file=" ++ codes x) ∷ l)
          (split-others d (codes "file=" ++ codes y) p (file_codes (codes y) k))

  -- Of a path of a file on the host, without a comma, that the validation accepts when its first slash
  -- is left out, the validation also accepts `root,file=` with the path behind it. When a drive is
  -- made of this in a directory, and neither the directory nor the id of the drive has a comma, qemu
  -- reads a second option `file`, for the file of the host, after the one for `root` in the directory.
  pub split-injected :
      (dir target : String) (d : Drive)
      → is_unsafe_path target ≡ false
      → HasNoComma (codes dir)
      → HasNoComma (codes target)
      → HasPlainId d.interface
      → d.file ≡ dir <> "/" <> "root,file=/" <> target
      → (is_unsafe_path ("root,file=/" <> target) ≡ false)
        × (split (codes (drive_arg d))
            ≡ (codes "file=" ++ codes (dir <> "/root"))
              ∷ (codes "file=" ++ codes ("/" <> target))
              ∷ other_options d)
  split-injected dir target d below h k p e = (
    is_unsafe_path-injected target below,
    split-two_files d (dir <> "/root") ("/" <> target) (e ∙ joined dir target)
        (subst HasNoComma (sym (codes-append dir "/root")) (
          All-append IsPlain (codes dir) (codes "/root") h
            (is_plain-HasNoComma (codes "/root") refl)))
        (subst HasNoComma (sym (codes-append "/" target)) (refl, k)) p,
  )
