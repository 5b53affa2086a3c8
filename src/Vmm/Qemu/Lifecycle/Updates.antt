-- ===== src/Vmm/Qemu/Lifecycle/Updates.antt =====
-- What `update` of crates/mirum-vm-vmm/src/backend/qemu/mod.rs leaves.
use mirum.Base.{
  ℕ, ◌*◌, ◌%◌, ◌^◌, ◌≡◌, refl, sym, ap, ◌∙◌, Bool, true, false, not, List, [], ◌∷◌, ◌++◌, Result,
  ok, err, arith, ◌==◌, if◌then◌else◌,
}
use mirum.Base.Exec.{pure, raise, gets, ◌>>=◌, continue}
use mirum.Vmm.Types.{Error, Settings}
use mirum.Vmm.Qemu.Outside.{
  World, Stop, QmpCommand, set_balloon_size, sent, look, passed, modify, act,
}
use mirum.Vmm.Qemu.Lifecycle.{command, qmp_client, as_failed}
use mirum.Vmm.Qemu.Lifecycle.Start.{
  update, same_forwards, apply_settings, refuse_cpu, refuse_forwards,
}
use mirum.Vmm.Qemu.Lifecycle.Looks.{Same, look-Same, qmp_client-Same}

-- What an update leaves when it succeeds: the settings are the new ones, only the memory differs, and
-- qemu was told its size if it does.
abbrev pub Updated : Settings → World → World → Type 0
Updated settings w w' =
    (w'.machine.settings ≡ settings)
    × (settings.cpu ≡ w.machine.settings.cpu)
    × (settings.port_forwards ≡ w.machine.settings.port_forwards)
    × (w'.acts ≡ (
        if settings.ram == w.machine.settings.ram
        then w.acts
        else w.acts ++ sent (set_balloon_size ((settings.ram * 1024 * 1024) % 2 ^ 64)) ∷ []))

abbrev pub AfterUpdate : Settings → World → Result Stop (Unit {0}) × World → Type 0
AfterUpdate settings w (ok u, w') = Updated settings w w'
AfterUpdate settings w (err e, w') = w'.machine ≡ w.machine

same_forwards-eq : (l m : List (ℕ × ℕ)) → same_forwards l m ≡ true → l ≡ m
same_forwards-eq [] [] h = refl
same_forwards-eq [] (p ∷ m) h = cc
same_forwards-eq (p ∷ l) [] h = cc
same_forwards-eq ((a, b) ∷ l) ((c, d) ∷ m) h =
    let rest = same_forwards-eq l m (ground (arith, h)) in
    let first : a ≡ c = ground (arith, h) in let second : b ≡ d = ground (arith, h) in cc

-- A command that was answered was sent, and nothing else was done; one that was not leaves the machine.
command-sent :
    (c : QmpCommand) (w : World)
    → let (r, w') = command c w in
      (w'.machine ≡ w.machine) × (r ≡ ok tt → w'.acts ≡ w.acts ++ sent c ∷ [])
unfolding command ◌>>=◌ continue act look pure raise
command-sent c w = go (qmp_client w) (qmp_client-Same.at w)
  where
    answered :
        (r : Result Error (Unit {0})) (w' : World)
        → (w'.machine ≡ w.machine)
        → (w'.acts ≡ w.acts ++ sent c ∷ [])
        → let (s, w'') = as_failed r w' in
          (w''.machine ≡ w.machine) × (s ≡ ok tt → w''.acts ≡ w.acts ++ sent c ∷ [])
    answered (ok u) w' h k = (h, λ e. k)
    answered (err e) w' h k = (h, λ e. k)

    go :
        (p : Result Stop (Unit {0}) × World)
        → Same w p.1
        → let (r, w') =
            continue p.0 (λ u. act (sent c) >>= λ u. look (λ o. o.answer c) >>= as_failed) p.1 in
          (w'.machine ≡ w.machine) × (r ≡ ok tt → w'.acts ≡ w.acts ++ sent c ∷ [])
    go (ok u, w') same =
        let acted : World = record w' { acts = w'.acts ++ sent c ∷ [] } in
        let seen = (look-Same (λ o. o.answer c)).at acted in
        answered _ (passed acted) (seen.0 ∙ same.0) (seen.2 ∙ ap (λ l. l ++ sent c ∷ []) same.2)
    go (err e, w') same = (same.0, λ h. cc)

-- Whatever the outside does: an `update` that succeeds has the new settings, which differ from the old
-- ones in the memory only, and has told qemu the new size in bytes if they do; one that fails leaves
-- the machine as it is.
pub update-AfterUpdate :
    (settings : Settings) (w : World) → AfterUpdate settings w (update settings w)
unfolding update gets ◌>>=◌ continue raise modify pure
update-AfterUpdate settings w =
    go (settings.cpu == w.machine.settings.cpu)
      (same_forwards settings.port_forwards w.machine.settings.port_forwards) refl refl
  where
    old : Settings
    old = w.machine.settings

    new_size : QmpCommand
    new_size = set_balloon_size ((settings.ram * 1024 * 1024) % 2 ^ 64)

    set : World → World
    set v = record v { machine = record v.machine { settings = settings } }

    told :
        (p : Result Stop (Unit {0}) × World)
        → settings.cpu ≡ old.cpu
        → settings.port_forwards ≡ old.port_forwards
        → (settings.ram == old.ram) ≡ false
        → (p.1.machine ≡ w.machine) × (p.0 ≡ ok tt → p.1.acts ≡ w.acts ++ sent new_size ∷ [])
        → AfterUpdate settings w (continue p.0 (λ u. modify set) p.1)
    told (ok u, w') c f e h = (
      refl,
      c,
      f,
      h.1 refl ∙ sym (ap (λ b. if b then w.acts else w.acts ++ sent new_size ∷ []) e),
    )
    told (err u, w') c f e h = h.0

    sized :
        (same : Bool)
        → settings.cpu ≡ old.cpu
        → settings.port_forwards ≡ old.port_forwards
        → (settings.ram == old.ram) ≡ same
        → AfterUpdate settings w
            (((if same then pure tt else command new_size) >>= λ u. modify set) w)
    sized true c f e =
        (refl, c, f, sym (ap (λ b. if b then w.acts else w.acts ++ sent new_size ∷ []) e))
    sized false c f e = told (command new_size w) c f e (command-sent new_size w)

    go :
        (cpu forwards : Bool)
        → (settings.cpu == old.cpu) ≡ cpu
        → same_forwards settings.port_forwards old.port_forwards ≡ forwards
        → AfterUpdate settings w (
            (if not cpu
                then refuse_cpu
                else if not forwards
                then refuse_forwards
                else apply_settings old settings)
              w)
    go false forwards c f = refl
    go true false c f = refl
    go true true c f =
        sized (settings.ram == old.ram) (ground (arith, c)) (same_forwards-eq _ _ f) refl
