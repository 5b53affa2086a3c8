-- ===== src/Tests/Options.antt =====
-- The theorems on the value of `-drive`, with a way to split it that keeps doubled commas together.
use mirum.Base.{ℕ, ◌≡◌, refl, ap, ◌∙◌, true, false, List, [], ◌∷◌, ◌++◌, ◌==◌, if◌then◌else◌}
use mirum.Base.Text.{
  codes, components, is_absolute, segments, push_segment, path_components, later_components,
  segment_component,
}
use mirum.Hmi.Validation.{is_unsafe_path}
use mirum.Vmm.Qemu.Cli.{Drive, virtio, unattached, drive_arg}
use mirum.Vmm.Qemu.Cli.Options.{IsPlain, HasNoComma, Continues, split-drive_arg, split-injected}

abbrev put : ℕ → List (List ℕ) → List (List ℕ)
put c [] = (c ∷ []) ∷ []
put c (option ∷ options) = (c ∷ option) ∷ options

unfoldable split : List ℕ → List (List ℕ)
split [] = [] ∷ []
split (c ∷ []) = if c == b',' then [] ∷ [] ∷ [] else (c ∷ []) ∷ []
split (c ∷ d ∷ l) =
    let after = split l in
    let next = split (d ∷ l) in
    if c == b',' then if d == b',' then put b',' after else [] ∷ next else put c next

split-put : (c : ℕ) (l : List ℕ) → IsPlain c → split (c ∷ l) ≡ put c (split l)
unfolding split
split-put c [] h = ap (λ b. if b then [] ∷ [] ∷ [] else (c ∷ []) ∷ []) h
split-put c (d ∷ l) h =
    ap
      (λ b.
        if b
        then if d == b',' then put b',' (split l) else [] ∷ split (d ∷ l)
        else put c (split (d ∷ l)))
      h

split-first : (b : List ℕ) → Continues b → split (b',' ∷ b) ≡ [] ∷ split b
unfolding split
split-first [] h = refl
split-first (d ∷ l) h = ap (λ b. if b then put b',' (split l) else [] ∷ split (d ∷ l)) h

split-last : (a : List ℕ) → HasNoComma a → split a ≡ a ∷ []
unfolding split
split-last [] h = refl
split-last (c ∷ a) (first, rest) = split-put c a first ∙ ap (put c) (split-last a rest)

split-comma : (a b : List ℕ) → HasNoComma a → Continues b → split (a ++ b',' ∷ b) ≡ a ∷ split b
split-comma [] b h k = split-first b k
split-comma (c ∷ a) b (first, rest) k =
    split-put c (a ++ b',' ∷ b) first ∙ ap (put c) (split-comma a b rest k)

abbrev overlay : Drive
overlay = record { file = "/images/root.raw"; snapshot = true; interface = unattached "root" }

split-drive_arg_example :
    split (codes (drive_arg overlay))
    ≡ codes "file=/images/root.raw"
      ∷ codes "media=disk"
      ∷ codes "snapshot=on"
      ∷ codes "id=root"
      ∷ codes "if=none"
      ∷ []
split-drive_arg_example =
    split-drive_arg split split-last split-comma overlay
      (
        refl,
        (
          refl,
          (
            refl,
            (
              refl,
              (
                refl,
                (
                  refl,
                  (
                    refl,
                    (refl, (refl, (refl, (refl, (refl, (refl, (refl, (refl, (refl, tt))))))))),
                  ),
                ),
              ),
            ),
          ),
        ),
      )
      (refl, (refl, (refl, (refl, tt))))

abbrev stolen : Drive
stolen = record { file = "/images/root,file=/etc/passwd"; snapshot = false; interface = virtio }

split-injected_example :
    (is_unsafe_path "root,file=/etc/passwd" ≡ false)
    × (split (codes (drive_arg stolen))
        ≡ codes "file=/images/root"
          ∷ codes "file=/etc/passwd"
          ∷ codes "media=disk"
          ∷ codes "if=virtio"
          ∷ [])
unfolding is_unsafe_path components is_absolute segments push_segment path_components
    later_components segment_component
split-injected_example =
    split-injected split split-last split-comma "/images" "etc/passwd" stolen refl
      (refl, (refl, (refl, (refl, (refl, (refl, (refl, tt)))))))
      (refl, (refl, (refl, (refl, (refl, (refl, (refl, (refl, (refl, (refl, tt)))))))))) tt refl
