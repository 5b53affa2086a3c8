-- ===== src/Vmm/Qemu/Lifecycle/Waits.antt =====
-- Whether `wait` of crates/mirum-vm-vmm/src/backend/qemu/mod.rs comes to an end.
use mirum.Base.{
  ℕ, zero, suc, ◌≡◌, refl, ap, ◌∙◌, Bool, true, false, Option, none, some, List, [], ◌∷◌, ◌⊎◌, inl,
  inr, ok, err, if◌then◌else◌,
}
use mirum.Base.Exec.{pure, raise, gets, ◌>>=◌, continue}
use mirum.Base.Words.{parse_i32}
use mirum.Vmm.Types.{io}
use mirum.Vmm.Qemu.Outside.{
  ChildState, Outside, World, failed, unfinished, waited, look, modify, read_file, passed,
  await_wrapper, await_in,
}
use mirum.Vmm.Qemu.Lifecycle.{parse_with, exit_of, read_exit_code, wait, wait_exit, wait_child}

-- The exit status that the file holds now.
abbrev pub status_in : Outside → Option ℕ
status_in o = exit_of (parse_with parse_i32 (o.files "qemu.exit-code"))

-- When the wrapper has ended, or ends no more, and nothing changes and the file holds no exit code, and
-- waiting for the wrapper does not fail: `wait` on a machine that was started does not return, however
-- many rounds it makes.
pub wait-unfinished :
    (rounds : ℕ) (w : World)
    → status_in w.outside ≡ none
    → w.outside.wait_fails ≡ false
    → (wait rounds (record w { child = ChildState.running; changes = [] })).0 ≡ err unfinished
unfolding wait read_exit_code read_file look await_wrapper raise ◌>>=◌ gets pure
wait-unfinished zero w no_code holds = refl
wait-unfinished (suc rounds) w no_code holds =
    ap (λ o. (wait_exit o (wait rounds) still).0) no_code
    ∙ ap (λ b. (continue (waited b w.outside.has_ended) (λ x. wait rounds) still).0) holds
    ∙ go w.outside.has_ended (wait-unfinished rounds w no_code holds)
  where
    still : World
    still = record w { child = ChildState.running; changes = [] }

    go :
        (ended : Bool)
        → (wait rounds still).0 ≡ err unfinished
        → (continue (waited false ended) (λ x. wait rounds) still).0 ≡ err unfinished
    go true rest = rest
    go false rest = refl

-- The wrapper keeps its word: the file has no code or the status, and this when the wrapper has ended;
-- and waiting for it does not fail.
pub record Keeps (status : ℕ) (o : Outside) : Type 0 where
  pub told : (status_in o ≡ none) ⊎ (status_in o ≡ some status)
  pub kept : o.has_ended ≡ true → status_in o ≡ some status
  pub holds : o.wait_fails ≡ false

-- What changes from now on keeps the word, and at the end the wrapper has ended.
abbrev pub Ends : ℕ → List (Outside → Outside) → Outside → Type 0
Ends status [] o = Keeps status o × (o.has_ended ≡ true)
Ends status (change ∷ changes) o =
    Keeps status o
    × (o.has_ended ≡ true → (change o).has_ended ≡ true)
    × Ends status changes (change o)

Ends-Keeps :
    (status : ℕ) (changes : List (Outside → Outside)) (o : Outside)
    → Ends status changes o
    → Keeps status o
Ends-Keeps status [] o e = e.0
Ends-Keeps status (change ∷ changes) o e = e.0

pass-Ends :
    (status : ℕ) (changes : List (Outside → Outside)) (w : World)
    → Ends status changes w.outside
    → let w' = passed (record w { changes = changes }) in
      Ends status w'.changes w'.outside
      × (w.outside.has_ended ≡ true → w'.outside.has_ended ≡ true)
      × (w'.child ≡ w.child)
pass-Ends status [] w e = (e, λ h. h, refl)
pass-Ends status (change ∷ changes) w e = (e.2, e.1, refl)

await_in-Ends :
    (status : ℕ) (changes : List (Outside → Outside)) (w : World)
    → Ends status changes w.outside
    → (w' : World) × (await_in changes (record w { changes = changes }) ≡ (ok tt, w'))
      × (w'.outside.has_ended ≡ true)
      × Ends status w'.changes w'.outside
await_in-Ends status [] w e = (
  _,
  ap (λ b. (waited b w.outside.has_ended, record w { changes = [] })) e.0.holds
      ∙ ap (λ b. (waited false b, record w { changes = [] })) e.1,
  e.1,
  e,
)
await_in-Ends status (change ∷ changes) w e =
    let w' = record w { outside = change w.outside; changes = changes } in
    go (change w.outside).wait_fails (Ends-Keeps status changes (change w.outside) e.2).holds
      (change w.outside).has_ended refl (await_in-Ends status changes w' e.2)
  where
    go :
        (fails : Bool)
        → fails ≡ false
        → (ended : Bool) → (change w.outside).has_ended ≡ ended
        → (w' : World) × (await_in changes
              (record w { outside = change w.outside; changes = changes })
            ≡ (ok tt, w'))
          × (w'.outside.has_ended ≡ true)
          × Ends status w'.changes w'.outside
        → (w' : World) × ((if fails
              then (err (failed io), record w { outside = change w.outside; changes = changes })
              else if ended
              then (ok tt, record w { outside = change w.outside; changes = changes })
              else await_in changes (record w { outside = change w.outside; changes = changes }))
            ≡ (ok tt, w'))
          × (w'.outside.has_ended ≡ true)
          × Ends status w'.changes w'.outside
    go true k ended h later = cc
    go false k true h later = (_, refl, h, e.2)
    go false k false h later = later

-- A machine that was started, whose wrapper ends some time and then leaves the exit status of qemu in
-- the file, which holds no other code before, and can be waited for: `wait` returns this status, in
-- two rounds.
pub wait-Ends :
    (status more : ℕ) (w : World)
    → w.child ≡ ChildState.running
    → Ends status w.changes w.outside
    → (wait (suc (suc more)) w).0 ≡ ok status
unfolding wait read_exit_code read_file look await_wrapper raise ◌>>=◌ gets pure modify
wait-Ends status more w runs e =
    let (after, _, same) = pass-Ends status w.changes w e in
    first (passed w) (same ∙ runs) after (Ends-Keeps status _ _ after).told
  where
    second :
        (w' : World)
        → w'.outside.has_ended ≡ true
        → Ends status w'.changes w'.outside
        → (wait (suc more) w').0 ≡ ok status
    second w' ended e' =
        let (after, still, _) = pass-Ends status w'.changes w' e' in
        ap (λ o. (wait_exit o (wait more) (passed w')).0)
          ((Ends-Keeps status _ _ after).kept (still ended))

    first :
        (w' : World)
        → w'.child ≡ ChildState.running
        → Ends status w'.changes w'.outside
        → (status_in w'.outside ≡ none) ⊎ (status_in w'.outside ≡ some status)
        → (wait_exit (status_in w'.outside) (wait (suc more)) w').0 ≡ ok status
    first w' runs' e' (inr h) = ap (λ o. (wait_exit o (wait (suc more)) w').0) h
    first w' runs' e' (inl h) =
        let (w'', waited, ended, e'') = await_in-Ends status w'.changes w' e' in
        ap (λ o. (wait_exit o (wait (suc more)) w').0) h
        ∙ ap (λ c. (wait_child c (wait (suc more)) w').0) runs'
        ∙ ap (λ r. (continue r.0 (λ x. wait (suc more)) r.1).0) waited
        ∙ second w'' ended e''
