-- ===== src/Vmm/Monitor/Choice.antt =====
-- Which hypervisor and which boot entry `Monitor::create` takes, and which sets of hypervisors
-- `Monitor::new` takes (crates/mirum-vm-vmm/src/monitor.rs).
use mirum.Base.{
  ℕ, String, ◌≡◌, refl, ap, ◌↔◌, ◌⊎◌, inl, inr, Bool, true, false, Option, none, some, List, [],
  ◌∷◌, ◌++◌, arith, All, Result, ok, err, if◌then◌else◌, ◌≢◌,
}
use mirum.Hmi.Types.{Boot, is_recognized}
use mirum.Vmm.Types.{Error, duplicate_hypervisor, Hypervisor}
use mirum.Vmm.Monitor.{has_id, check_ids, built, new, find_hypervisor, choose, or_later}

abbrev pub Different : List ℕ → Type 0
Different [] = Unit
Different (i ∷ is) = All (λ j. i ≢ j) is × Different is

module _ {V m : Type 0} where
  -- No hypervisor can boot the entry, or the crate does not know its protocol.
  abbrev pub IsPassedOver : List (Hypervisor V m) → Boot V → Type 0
  IsPassedOver hvs b =
      (is_recognized b ≡ false) ⊎ All (λ (hv : Hypervisor V m). hv.supports b ≡ false) hvs

  -- The pair of the first entry that is not passed over and the first hypervisor that supports it.
  abbrev pub IsFirst :
      List (Hypervisor V m) → List (Boot V) → Option (Hypervisor V m × Boot V) → Type 0
  IsFirst hvs bs none = All (IsPassedOver hvs) bs
  IsFirst hvs bs (some (hv, b)) =
      (bs₁ bs₂ : List (Boot V)) × (hvs₁ hvs₂ : List (Hypervisor V m)) × (bs ≡ bs₁ ++ b ∷ bs₂)
      × All (IsPassedOver hvs) bs₁
      × (is_recognized b ≡ true)
      × (hvs ≡ hvs₁ ++ hv ∷ hvs₂)
      × All (λ (h : Hypervisor V m). h.supports b ≡ false) hvs₁
      × (hv.supports b ≡ true)

  -- The same for one entry.
  abbrev IsFirstFor : List (Hypervisor V m) → Boot V → Option (Hypervisor V m) → Type 0
  IsFirstFor hvs b none = All (λ (h : Hypervisor V m). h.supports b ≡ false) hvs
  IsFirstFor hvs b (some hv) =
      (hvs₁ hvs₂ : List (Hypervisor V m)) × (hvs ≡ hvs₁ ++ hv ∷ hvs₂)
      × All (λ (h : Hypervisor V m). h.supports b ≡ false) hvs₁
      × (hv.supports b ≡ true)

  find_hypervisor-IsFirstFor :
      (hvs : List (Hypervisor V m)) (b : Boot V) → IsFirstFor hvs b (find_hypervisor hvs b)
  unfolding find_hypervisor
  find_hypervisor-IsFirstFor [] b = tt
  find_hypervisor-IsFirstFor (hv ∷ hvs) b =
      go (hv.supports b) refl (find_hypervisor hvs b) (find_hypervisor-IsFirstFor hvs b)
    where
      go :
          (s : Bool)
          → hv.supports b ≡ s
          → (r : Option (Hypervisor V m)) → IsFirstFor hvs b r
          → IsFirstFor (hv ∷ hvs) b (if s then some hv else r)
      go true e r h = ([], hvs, refl, tt, e)
      go false e none h = (e, h)
      go false e (some hv') (hvs₁, hvs₂, split, before, good) =
          (hv ∷ hvs₁, hvs₂, ap (λ l. hv ∷ l) split, (e, before), good)

  -- The monitor creates a machine through the first declared boot entry that is recognized and that
  -- one of its hypervisors supports, with the first hypervisor that supports it; it finds none
  -- exactly when there is no such entry.
  pub choose-IsFirst :
      (hvs : List (Hypervisor V m)) (bs : List (Boot V)) → IsFirst hvs bs (choose hvs bs)
  unfolding choose
  choose-IsFirst hvs [] = tt
  choose-IsFirst hvs (b ∷ bs) =
      go (is_recognized b) refl (find_hypervisor hvs b) (find_hypervisor-IsFirstFor hvs b)
        (choose hvs bs) (choose-IsFirst hvs bs)
    where
      later :
          IsPassedOver hvs b
          → (r : Option (Hypervisor V m × Boot V)) → IsFirst hvs bs r
          → IsFirst hvs (b ∷ bs) r
      later p none h = (p, h)
      later p (some (hv, b')) (bs₁, bs₂, hvs₁, hvs₂, split, before, known, among, first, good) =
          (b ∷ bs₁, bs₂, hvs₁, hvs₂, ap (λ l. b ∷ l) split, (p, before), known, among, first, good)

      go :
          (s : Bool)
          → is_recognized b ≡ s
          → (f : Option (Hypervisor V m)) → IsFirstFor hvs b f
          → (r : Option (Hypervisor V m × Boot V)) → IsFirst hvs bs r
          → IsFirst hvs (b ∷ bs) (if s then or_later b f r else r)
      go false e f g r h = later (inl e) r h
      go true e none g r h = later (inr g) r h
      go true e (some hv) (hvs₁, hvs₂, split, before, good) r h =
          ([], bs, hvs₁, hvs₂, refl, tt, e, split, before, good)

  abbrev pub ids : List (Hypervisor V m) → List ℕ
  ids [] = []
  ids (hv ∷ hvs) = hv.id ∷ ids hvs

  abbrev Unseen : List ℕ → List (Hypervisor V m) → Type 0
  Unseen seen hvs = All (λ (hv : Hypervisor V m). has_id seen hv.id ≡ false) hvs

  Unseen-cons :
      (i : ℕ) (seen : List ℕ) (hvs : List (Hypervisor V m))
      → Unseen (i ∷ seen) hvs ↔ (All (λ j. i ≢ j) (ids hvs) × Unseen seen hvs)
  Unseen-cons i seen [] = (λ h. (tt, tt), λ h. tt)
  Unseen-cons i seen (hv ∷ hvs) =
      let (to, from) = Unseen-cons i seen hvs in
      (
        λ h.
            let (different, unseen) = to h.1 in
            ((λ e. ground (arith, h.0), different), (ground (arith, h.0), unseen)),
        λ h. (ground (arith, h.0.0, h.1.0), from (h.0.1, h.1.1)),
      )

  check_ids_iff :
      (hvs : List (Hypervisor V m)) (seen : List ℕ)
      → (check_ids hvs seen ≡ ok tt) ↔ (Different (ids hvs) × Unseen seen hvs)
  unfolding check_ids
  check_ids_iff [] seen = (λ h. (tt, tt), λ h. refl)
  check_ids_iff (hv ∷ hvs) seen = go (has_id seen hv.id) refl (check_ids_iff hvs (hv.id ∷ seen))
    where
      go :
          (s : Bool)
          → has_id seen hv.id ≡ s
          → (check_ids hvs (hv.id ∷ seen) ≡ ok tt)
            ↔ (Different (ids hvs) × Unseen (hv.id ∷ seen) hvs)
          → ((if s then err (duplicate_hypervisor hv.id) else check_ids hvs (hv.id ∷ seen)) ≡ ok tt)
            ↔ (Different (ids (hv ∷ hvs)) × Unseen seen (hv ∷ hvs))
      go true e h = (λ q. cc, λ q. cc)
      go false e (to, from) =
          let cons = Unseen-cons hv.id seen hvs in
          (
            λ q. let (d, u) = to q in let (n, v) = cons.0 u in ((n, d), (e, v)),
            λ q. from (q.0.1, cons.1 (q.0.0, q.1.1)),
          )

  -- A monitor is made exactly when no two of its hypervisors have the same id, and then it has all
  -- of them.
  pub new_iff :
      (run_dir : String) (hvs : List (Hypervisor V m))
      → (new run_dir hvs ≡ ok record { run_dir = run_dir; hypervisors = hvs }) ↔ Different (ids hvs)
  unfolding new
  new_iff run_dir hvs = (
    λ h. ((check_ids_iff hvs []).0 (made (check_ids hvs []) h)).0,
    λ d. ap (built run_dir hvs) ((check_ids_iff hvs []).1 (d, unseen hvs)),
  )
    where
      made :
          (r : Result Error (Unit {0}))
          → built run_dir hvs r ≡ ok record { run_dir = run_dir; hypervisors = hvs }
          → r ≡ ok tt
      made (ok u) h = refl
      made (err e) h = cc

      unseen : (hvs : List (Hypervisor V m)) → Unseen [] hvs
      unseen [] = tt
      unseen (hv ∷ hvs) = (refl, unseen hvs)
