-- ===== src/Run/Chosen.antt =====
-- What `cmd_run` of crates/mirum-vm/src/main.rs makes of a valid image.
use mirum.Base.{
  ℕ, ◌+◌, ◌≤◌, ◌<◌, ◌≡◌, refl, ap, ◌∙◌, Bool, true, false, Option, none, some, List, [], ◌∷◌, ◌++◌,
  ◌&&◌, arith, All, any, is_some, ◌⊎◌, inl, inr, String, ok, if◌then◌else◌, ◌/◌, ◌*◌,
}
use mirum.Hmi.Json.{Json}
use mirum.Hmi.Types.{Boot, MachineImage}
use mirum.Hmi.Decode.{from_json, from_json_iff}
use mirum.Vmm.Types.{Settings}
use mirum.Vmm.Qemu.Machine.{QemuMachine, supports}
use mirum.Vmm.Qemu.Machine.Valid.{create-from_json}
use mirum.Run.{
  is_linux, find, or_else, choose_boot, settings, make_with, created, make_from, make_machine,
  as_u32,
}

-- The first element that passes the test, with what is before and after it.
abbrev pub IsFirstOf : {A : Type 0} → (A → Bool) → List A → Option A → Type 0
IsFirstOf test xs none = All (λ y. test y ≡ false) xs
IsFirstOf {A} test xs (some x) =
    (before after : List A) × (xs ≡ before ++ x ∷ after)
    × All (λ y. test y ≡ false) before
    × (test x ≡ true)

find-IsFirstOf : {A : Type 0} (test : A → Bool) (xs : List A) → IsFirstOf test xs (find test xs)
unfolding find
find-IsFirstOf test [] = tt
find-IsFirstOf {A} test (x ∷ xs) = go (test x) refl (find test xs) (find-IsFirstOf test xs)
  where
    go :
        (s : Bool)
        → test x ≡ s
        → (r : Option A) → IsFirstOf test xs r
        → IsFirstOf test (x ∷ xs) (if s then some x else r)
    go true e r h = ([], xs, refl, tt, e)
    go false e none h = (e, h)
    go false e (some y) (before, after, split, passed, good) =
        (x ∷ before, after, ap (λ l. x ∷ l) split, (e, passed), good)

module _ {V : Type 0} where
  abbrev pub is_direct : Boot V → Bool
  is_direct b = is_linux b && supports b

  -- Of the entries that the backend supports the first direct Linux boot is chosen, and only if there
  -- is none, the first of all.
  pub choose_boot-IsFirstOf :
      (bs : List (Boot V))
      → ((is_some (choose_boot bs) ≡ true) × IsFirstOf is_direct bs (choose_boot bs))
        ⊎ (All (λ (b : Boot V). is_direct b ≡ false) bs × IsFirstOf supports bs (choose_boot bs))
  unfolding choose_boot
  choose_boot-IsFirstOf bs = go (find is_direct bs) (find-IsFirstOf is_direct bs)
    where
      go :
          (o : Option (Boot V))
          → IsFirstOf is_direct bs o
          → ((is_some (or_else o (find supports bs)) ≡ true)
              × IsFirstOf is_direct bs (or_else o (find supports bs)))
            ⊎ (All (λ (b : Boot V). is_direct b ≡ false) bs
                × IsFirstOf supports bs (or_else o (find supports bs)))
      go none h = inr (h, find-IsFirstOf supports bs)
      go (some b) h = inl (refl, h)

  -- Whichever it is, it is an entry of the image that the backend supports.
  chosen-supported :
      (bs : List (Boot V))
      → any supports bs ≡ true
      → (boot : Boot V) × (choose_boot bs ≡ some boot)
        × (before : List (Boot V)) × (after : List (Boot V)) × (bs ≡ before ++ boot ∷ after)
        × (supports boot ≡ true)
  chosen-supported bs h = go (choose_boot bs) refl (choose_boot-IsFirstOf bs)
    where
      not_any :
          (xs : List (Boot V))
          → any supports xs ≡ true
          → All (λ (b : Boot V). supports b ≡ false) xs
          → ⊥
      not_any [] p q = cc
      not_any (x ∷ xs) p q = not_any xs (ground (arith, p, q.0)) q.1

      direct : (b : Boot V) → is_direct b ≡ true → supports b ≡ true
      direct b e = ground (arith, e)

      go :
          (o : Option (Boot V))
          → choose_boot bs ≡ o
          → ((is_some o ≡ true) × IsFirstOf is_direct bs o)
            ⊎ (All (λ (b : Boot V). is_direct b ≡ false) bs × IsFirstOf supports bs o)
          → (boot : Boot V) × (choose_boot bs ≡ some boot)
            × (before : List (Boot V)) × (after : List (Boot V)) × (bs ≡ before ++ boot ∷ after)
            × (supports boot ≡ true)
      go none e (inl (i, f)) = cc
      go none e (inr (n, f)) = absurd (not_any bs h f)
      go (some b) e (inl (i, (before, after, split, passed, good))) =
          (b, e, before, after, split, direct b good)
      go (some b) e (inr (n, (before, after, split, passed, good))) =
          (b, e, before, after, split, good)

module _ (J : Json) where
  open J use {Value}

  -- From a config that `from_json` accepts, with an entry that the backend supports and a default
  -- number of CPUs below 2 ^ 32, a machine is made: it has the image's default number of CPUs, which is
  -- positive and not below the minimum, and as many whole MiB as there are in the default memory.
  pub make_machine-from_json :
      (bytes : List ℕ) (image : MachineImage Value) (dir : String) (port : ℕ)
      → from_json J bytes ≡ ok image
      → any supports image.machine.boot ≡ true
      → image.machine.cpu.default < 4294967296
      → (m : QemuMachine) × (make_machine J bytes dir port ≡ ok m)
        × (m.settings.cpu ≡ image.machine.cpu.default)
        × (0 < m.settings.cpu)
        × (image.machine.cpu.minimum ≤ m.settings.cpu)
        × (m.settings.ram * 1048576 ≤ image.machine.ram.default)
        × (image.machine.ram.default < (m.settings.ram + 1) * 1048576)
  unfolding make_machine make_with settings
  make_machine-from_json bytes image dir port decoded some_boot small =
      let (h, read, version, kind, parsed, valid) = (from_json_iff J bytes image).0 decoded in
      let (boot, chosen, before, after, split, good) =
        chosen-supported image.machine.boot some_boot in
      let (m, made, disk, same, place) =
        create-from_json J bytes image before boot after none dir (settings image port) decoded
          split good in
      let cpu : m.settings.cpu ≡ as_u32 image.machine.cpu.default =
        ap (λ (s : Settings). s.cpu) same in
      let ram : m.settings.ram ≡ image.machine.ram.default / (1024 * 1024) =
        ap (λ (s : Settings). s.ram) same in
      let positive = valid.machine.cpu.positive in
      let ordered = valid.machine.cpu.ordered in
      (
        m,
        ap (make_from J dir port) decoded
            ∙ ap (make_with J image dir port) chosen
            ∙ ap (created J) made,
        omega (arith, cpu, small),
        omega (arith, cpu, small, positive, ordered),
        omega (arith, cpu, small, positive, ordered),
        omega (arith, ram),
        omega (arith, ram),
      )
