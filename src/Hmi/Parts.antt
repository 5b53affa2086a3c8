-- ===== src/Hmi/Parts.antt =====
-- Each `validate_into` reports nothing new exactly when its part is valid.
use mirum.Base.{
  ℕ, suc, String, ◌≡◌, refl, ◌↔◌, true, false, not, ◌&&◌, Option, none, some, List, [], ◌∷◌, arith,
  All, all, any, length, is_empty, eq_iff, Bool-cases, inl, inr, ◌<◌, ◌==◌, ◌=s=◌,
}
use mirum.Base.Text.{
  codes, strip_prefix, is_ascii_hexdigit, components, is_absolute, is_normal, segments,
}
use mirum.Hmi.Types.{
  Digest, ResourceRange, FileRef, Boot, bios, uefi, linux, unknown, System, Disk, Access, ssh, qga,
  Network, dhcp, static, Machine, is_recognized, is_recognized_access,
}
use mirum.Hmi.Validation.{
  error_if, is_unsafe_path, Checks, Checks-error, Checks-error_if, Checks-skip, Checks-then,
  Checks-iff, Checks-required, Checks-path, path,
}
use mirum.Hmi.Validate.{
  is_bad_hex, check_hex, validate_digest, validate_range, validate_file_ref, validate_boot,
  validate_name, validate_system, validate_disk, validate_access, validate_network, validate_boots,
  validate_accesses, validate_machine,
}
use mirum.Hmi.Spec.{
  IsDigest, IsBelow, IsValidRange, IsValidFile, IsValidBoot, IsValidName, IsValidSystem,
  IsValidDisk, IsValidAccess, IsValidNetwork, SomeAccess, IsValidMachine,
}

is_bad_hex_iff :
    (hex : String)
    → (is_bad_hex hex ≡ false)
      ↔ ((length (codes hex) ≡ 64) × (all is_ascii_hexdigit (codes hex) ≡ true))
unfolding is_bad_hex
is_bad_hex_iff hex = ground arith

pub segments-cons : (cs : List ℕ) → (s : List ℕ) × (rest : List (List ℕ)) × (segments cs ≡ s ∷ rest)
unfolding segments
segments-cons [] = ([], [], refl)
segments-cons (c ∷ cs) =
    let (s, rest, e) = segments-cons cs in
    elim (Bool-cases (c == b'/')) [
      | inl slash ↦ ([], s ∷ rest, rw (e, slash))
      | inr other ↦ (c ∷ s, rest, rw (e, other))
    ]

-- An absolute path has a component that is not normal.
is_absolute→root : (s : String) → is_absolute s ≡ true → all is_normal (components s) ≡ false
unfolding is_absolute components
is_absolute→root String.[] h = cc
is_absolute→root (String.◌∷◌ c s) h = let (first, rest, e) = segments-cons (codes s) in rw (e, h)

pub is_unsafe_path_iff : (s : String) → (is_unsafe_path s ≡ false) ↔ IsBelow s
unfolding is_unsafe_path
is_unsafe_path_iff s = ground (arith, eq_iff s "", is_absolute→root s)

check_hex_iff :
    (hex : String)
    → (is_bad_hex hex ≡ false) ↔ (
        (h : String) × (some hex ≡ some h)
        × (length (codes h) ≡ 64)
        × (all is_ascii_hexdigit (codes h) ≡ true))
check_hex_iff hex = (
  λ e. let (l, a) = (is_bad_hex_iff hex).0 e in (hex, refl, l, a),
  λ (h, e, l, a). let p : hex ≡ h = cc in (is_bad_hex_iff hex).1 (rw p (l, a)),
)

Checks-check_hex :
    (o : Option String) (field : String)
    → Checks (check_hex o field) (
        (hex : String) × (o ≡ some hex)
        × (length (codes hex) ≡ 64)
        × (all is_ascii_hexdigit (codes hex) ≡ true))
unfolding check_hex
Checks-check_hex none field = Checks-iff (Checks-error _) (λ h. absurd h, λ h. cc (h.1))
Checks-check_hex (some hex) field = Checks-iff (Checks-error_if _ _) (check_hex_iff hex)

Checks-digest : (d : Digest) (field : String) → Checks (validate_digest d field) (IsDigest d)
unfolding validate_digest
Checks-digest d field = Checks-check_hex (strip_prefix "sha256:" d) field

Checks-below : (p field : String) → Checks (path p field) (IsBelow p)
Checks-below p field = Checks-iff (Checks-path p field) (is_unsafe_path_iff p)

Checks-range :
    (r : ResourceRange) (field : String) → Checks (validate_range r field) (IsValidRange r)
unfolding validate_range
Checks-range r field =
    Checks-iff (Checks-then (Checks-error_if _ _) (Checks-error_if _ _)) (ground arith)

Checks-file : (r : FileRef) (field : String) → Checks (validate_file_ref r field) (IsValidFile r)
unfolding validate_file_ref
Checks-file r field =
    Checks-iff (Checks-then (Checks-below _ _) (Checks-digest _ _))
      (λ h. record { path = h.0; digest = h.1 }, λ h. (h.path, h.digest))

Checks-constant : (s t message : String) → Checks (error_if (not (s =s= t)) message) (s ≡ t)
Checks-constant s t message = Checks-iff (Checks-error_if _ _) (ground (arith, eq_iff s t))

pub Checks-boot :
    {V : Type 0} (b : Boot V) (field : String) → Checks (validate_boot b field) (IsValidBoot b)
unfolding validate_boot
Checks-boot (bios b) field = Checks-then (Checks-constant _ _ _) (Checks-required _ _)
Checks-boot (uefi b) field = Checks-then (Checks-constant _ _ _) (Checks-required _ _)
Checks-boot (linux b) field =
    Checks-iff
      (Checks-then
        (Checks-then
          (Checks-then (Checks-then (Checks-constant _ _ _) (Checks-required _ _))
            (Checks-file _ _))
          (Checks-file _ _))
        (Checks-required _ _))
      (λ h. (h.0.0.0.0, h.0.0.0.1, h.0.0.1, h.0.1, h.1), λ h. ((((h.0, h.1), h.2), h.3), h.4))
Checks-boot (unknown b) field = Checks-skip

Checks-name : (n : Option String) (field : String) → Checks (validate_name n field) (IsValidName n)
unfolding validate_name
Checks-name none field = Checks-skip
Checks-name (some name) field = Checks-required _ _

pub Checks-system :
    (s : System) (field : String) → Checks (validate_system s field) (IsValidSystem s)
unfolding validate_system
Checks-system s field =
    Checks-iff
      (Checks-then (Checks-then (Checks-required _ _) (Checks-name _ _)) (Checks-required _ _))
      (λ h. record { os = h.0.0; name = h.0.1; version = h.1 }, λ h. ((h.os, h.name), h.version))

Checks-positive : (n : ℕ) (message : String) → Checks (error_if (n == 0) message) (0 < n)
Checks-positive n message = Checks-iff (Checks-error_if _ _) (ground arith)

pub Checks-disk : (d : Disk) (field : String) → Checks (validate_disk d field) (IsValidDisk d)
unfolding validate_disk
Checks-disk d field =
    Checks-iff
      (Checks-then
        (Checks-then
          (Checks-then (Checks-then (Checks-required _ _) (Checks-below _ _)) (Checks-digest _ _))
          (Checks-positive _ _))
        (Checks-positive _ _))
      (
        λ h. record {
          id = h.0.0.0.0;
          path = h.0.0.0.1;
          digest = h.0.0.1;
          virt_size = h.0.1;
          disk_size = h.1;
        },
        λ h. ((((h.id, h.path), h.digest), h.virt_size), h.disk_size),
      )

Checks-access :
    {V : Type 0} (a : Access V) (field : String)
    → Checks (validate_access a field) (IsValidAccess a)
unfolding validate_access
Checks-access (ssh a) field =
    Checks-iff
      (Checks-then (Checks-then (Checks-positive _ _) (Checks-required _ _)) (Checks-required _ _))
      (λ h. (h.0.0, h.0.1, h.1), λ h. ((h.0, h.1), h.2))
Checks-access (qga k) field = Checks-skip
Checks-access (unknown v) field = Checks-skip

Checks-network :
    (n : Network) (field : String) → Checks (validate_network n field) (IsValidNetwork n)
unfolding validate_network
Checks-network dhcp field = Checks-skip
Checks-network (static n) field = Checks-then (Checks-required _ _) (Checks-required _ _)

module _ {V : Type 0} where
  Checks-boots :
      (index : ℕ) (bs : List (Boot V)) (field : String)
      → Checks (validate_boots index bs field) (All IsValidBoot bs)
  unfolding validate_boots
  Checks-boots index [] field = Checks-skip
  Checks-boots index (b ∷ bs) field =
      Checks-then (Checks-boot b _) (Checks-boots (suc index) bs field)

  Checks-accesses :
      (index : ℕ) (l : List (Access V)) (field : String)
      → Checks (validate_accesses index l field) (All IsValidAccess l)
  unfolding validate_accesses
  Checks-accesses index [] field = Checks-skip
  Checks-accesses index (a ∷ l) field =
      Checks-then (Checks-access a _) (Checks-accesses (suc index) l field)

  SomeAccess-iff :
      (l : List (Access V))
      → ((not (is_empty l) && not (any is_recognized_access l)) ≡ false) ↔ SomeAccess l
  SomeAccess-iff [] = (λ h. tt, λ h. refl)
  SomeAccess-iff (a ∷ l) = ground arith

  pub Checks-machine :
      (m : Machine V) (field : String) → Checks (validate_machine m field) (IsValidMachine m)
  unfolding validate_machine
  Checks-machine m field =
      Checks-iff
        (Checks-then (Checks-range _ _) (
          Checks-then (Checks-range _ _) (
            Checks-then (Checks-iff (Checks-error_if _ _) (some_boot_iff m.boot)) (
              Checks-then (Checks-boots _ _ _) (
                Checks-then (Checks-iff (Checks-error_if _ _) (SomeAccess-iff m.access))
                  (Checks-then (Checks-accesses _ _ _) (Checks-network _ _)))))))
        (
          λ (c, (r, (sb, (b, (sa, (a, n)))))). record {
            cpu = c;
            ram = r;
            some_boot = sb;
            boot = b;
            some_access = sa;
            access = a;
            network = n;
          },
          λ h. (h.cpu, (h.ram, (h.some_boot, (h.boot, (h.some_access, (h.access, h.network)))))),
        )
    where
      some_boot_iff :
          (l : List (Boot V)) → (not (any is_recognized l) ≡ false) ↔ (any is_recognized l ≡ true)
      some_boot_iff l = ground arith
