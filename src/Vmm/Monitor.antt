-- ===== src/Vmm/Monitor.antt =====
-- `Monitor::new` and `Monitor::create` of crates/mirum-vm-vmm/src/monitor.rs. The id of a new machine
-- is left out, a random number that nothing depends on.
pub mod Choice
use mirum.Base.{
  ℕ, String, Bool, true, false, Option, none, some, List, [], ◌∷◌, ◌&&◌, Result, ok, err, ◌==◌,
  if◌then◌else◌,
}
use mirum.Hmi.Types.{Boot, MachineImage, is_recognized}
use mirum.Vmm.Types.{Error, unsupported, duplicate_hypervisor, Settings, Hypervisor}

-- `seen.contains(&id)`, the test of `HashSet::insert`.
abbrev pub has_id : List ℕ → ℕ → Bool
has_id [] id = false
has_id (i ∷ is) id = if i == id then true else has_id is id

pub record Monitor (V m : Type 0) : Type 0 where
  pub run_dir : String
  pub hypervisors : List (Hypervisor V m)

module _ {V m : Type 0} where
  -- The loop of `Monitor::new`.
  unfoldable pub check_ids : List (Hypervisor V m) → List ℕ → Result Error (Unit {0})
  check_ids [] seen = ok tt
  check_ids (hv ∷ hvs) seen =
      let rest = check_ids hvs (hv.id ∷ seen) in
      if has_id seen hv.id then err (duplicate_hypervisor hv.id) else rest

  abbrev pub built :
      String → List (Hypervisor V m) → Result Error (Unit {0}) → Result Error (Monitor V m)
  built run_dir hypervisors (ok u) = ok record { run_dir = run_dir; hypervisors = hypervisors }
  built run_dir hypervisors (err e) = err e

  unfoldable pub new : String → List (Hypervisor V m) → Result Error (Monitor V m)
  new run_dir hypervisors = built run_dir hypervisors (check_ids hypervisors [])

  -- `self.hypervisors.iter().find(|hv| hv.supports(b))`
  unfoldable pub find_hypervisor : List (Hypervisor V m) → Boot V → Option (Hypervisor V m)
  find_hypervisor [] b = none
  find_hypervisor (hv ∷ hvs) b =
      let rest = find_hypervisor hvs b in if hv.supports b then some hv else rest

  abbrev pub or_later :
      Boot V
      → Option (Hypervisor V m)
      → Option (Hypervisor V m × Boot V)
      → Option (Hypervisor V m × Boot V)
  or_later b none later = later
  or_later b (some hv) later = some (hv, b)

  -- The first recognized entry that a hypervisor supports, with the first such hypervisor.
  unfoldable pub choose : List (Hypervisor V m) → List (Boot V) → Option (Hypervisor V m × Boot V)
  choose hvs [] = none
  choose hvs (b ∷ bs) =
      let later = choose hvs bs in
      if is_recognized b then or_later b (find_hypervisor hvs b) later else later

  abbrev create_by :
      Option (Hypervisor V m × Boot V)
      → MachineImage V
      → String
      → Option String
      → Settings
      → Result Error m
  create_by none image dir name settings =
      err (unsupported "no registered hypervisor supports any declared boot protocol")
  create_by (some (hv, boot)) image dir name settings = hv.create name image dir boot settings

  unfoldable pub create :
      Monitor V m → MachineImage V → String → Option String → Settings → Result Error m
  create monitor image dir name settings =
      create_by (choose monitor.hypervisors image.machine.boot) image dir name settings
