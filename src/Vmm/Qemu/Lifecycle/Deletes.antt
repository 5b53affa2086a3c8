-- ===== src/Vmm/Qemu/Lifecycle/Deletes.antt =====
-- What `delete` of crates/mirum-vm-vmm/src/backend/qemu/mod.rs does to the process.
use mirum.Base.{
  ℕ, ◌≡◌, refl, sym, ap, subst, ◌∙◌, Bool, true, false, not, Option, none, some, List, [], ◌∷◌,
  ◌++◌, Result, ok, err, if◌then◌else◌,
}
use mirum.Base.Exec.{
  pure, raise, gets, ◌>>=◌, continue, IsOrder, Stays, Stays-pure, Stays-gets, Stays-bind,
}
use mirum.Vmm.Types.{io}
use mirum.Vmm.Qemu.Qmp.{Status}
use mirum.Vmm.Qemu.Outside.{
  State, ChildState, Outside, World, Stop, failed, killed, look, modify, act, read_file,
  remove_file, try, await_wrapper, await_in, pass_over,
}
use mirum.Vmm.Qemu.Lifecycle.{
  read_exit_code, qemu_pid, parse_pid, state, state_of_exit, state_of_pid, query_status, qmp_client,
  as_failed, paused_or_running, reap, set_child, kill_if, reap_child, kill_pid, kill, remove_files,
  is_running, delete, pid_rounds, found,
}
use mirum.Vmm.Qemu.Lifecycle.Looks.{look-Same, remove_files-Same}
use mirum.Vmm.Qemu.Lifecycle.Waits.{status_in}

-- Nothing is done to processes.
abbrev Idle : World → World → Type 0
Idle w w' = w'.acts ≡ w.acts

Idle-order : IsOrder Idle
Idle-order = record { refl = λ w. refl; trans = λ u v w e f. f ∙ e }

look-Idle : {A : Type 0} (f : Outside → A) → Stays Idle (look f)
look-Idle f = record { at = λ w. ((look-Same f).at w).2 }

remove_files-Idle : Stays Idle remove_files
remove_files-Idle = record { at = λ w. (remove_files-Same.at w).2 }

await_in-Idle :
    (changes : List (Outside → Outside)) (w : World) → (await_in changes w).1.acts ≡ w.acts
await_in-Idle [] w = refl
await_in-Idle (change ∷ changes) w =
    go (change w.outside).wait_fails (change w.outside).has_ended _
      (await_in-Idle changes (record w { outside = change w.outside; changes = changes }))
  where
    go :
        (fails ended : Bool) (p : Result Stop (Unit {0}) × World)
        → p.1.acts ≡ w.acts
        → (if fails
            then (err (failed io), record w { outside = change w.outside; changes = changes })
            else if ended
            then (ok tt, record w { outside = change w.outside; changes = changes })
            else p).1.acts
          ≡ w.acts
    go true ended p h = refl
    go false true p h = refl
    go false false p h = h

reap-Idle : (child : ChildState) → Stays Idle (reap child)
unfolding await_wrapper pass_over
reap-Idle ChildState.running = record { at = λ w. await_in-Idle w.changes w }
reap-Idle ChildState.not_started = Stays-pure Idle-order tt
reap-Idle (ChildState.exited status) = Stays-pure Idle-order tt

set_child-Idle : (o : Option ℕ) → Stays Idle (set_child o)
unfolding modify
set_child-Idle none = Stays-pure Idle-order tt
set_child-Idle (some status) = record { at = λ w. refl }

reap_child-Idle : Stays Idle reap_child
unfolding read_exit_code read_file
reap_child-Idle = Stays-bind Idle-order _ _ (Stays-gets Idle-order _) λ child.
    Stays-bind Idle-order _ _ (reap-Idle child) λ u.
      Stays-bind Idle-order _ _
        (Stays-bind Idle-order _ _ (look-Idle _) λ text. Stays-pure Idle-order _) set_child-Idle

-- The file with the process id of qemu is there, and qemu is alive and answers; nothing changes.
pub record Lives (pid : ℕ) (status : Status) (o : Outside) : Type 0 where
  pub no_exit : status_in o ≡ none
  pub pid_lem : parse_pid (o.files "qemu.pid") ≡ some pid
  pub alive : o.is_alive pid ≡ true
  pub status_lem : o.status ≡ ok status

abbrev pub still : World → World
still w = record w { is_connected = true; changes = [] }

-- The process is killed; or it cannot be killed, which is the error that `delete` returns, and the files
-- stay.
abbrev pub AfterKill : Bool → ℕ → World → Result Stop (Unit {0}) × World → Type 0
AfterKill true pid w (r, w') = w'.acts ≡ w.acts ++ killed pid ∷ []
AfterKill false pid w (r, w') =
    (r ≡ err (failed io)) × (w'.acts ≡ w.acts) × (w'.outside.files ≡ w.outside.files)

-- What `delete` leaves of a machine whose process is alive: it is killed, if it can be, unless it is
-- paused; then it lives on, and the file with its id is gone.
abbrev pub AfterDelete : ℕ → Status → World → Result Stop (Unit {0}) × World → Type 0
AfterDelete pid Status.paused w (r, w') =
    (r ≡ ok tt)
    × (w'.acts ≡ w.acts)
    × (w'.outside.is_alive ≡ w.outside.is_alive)
    × (w'.outside.files "qemu.pid" ≡ none)
AfterDelete pid _ w p = AfterKill (w.outside.can_kill pid) pid w p

module _ (pid : ℕ) (status : Status) (w : World) (lives : Lives pid status w.outside) where
  qemu_pid-still : qemu_pid (still w) ≡ (ok pid, still w)
  unfolding qemu_pid pid_rounds read_file look ◌>>=◌ continue pure
  qemu_pid-still = ap (λ o. found o (pid_rounds 49) (still w)) lives.pid_lem

  state-still : state (still w) ≡ (ok (paused_or_running (ok status)), still w)
  unfolding state read_exit_code read_file look ◌>>=◌ continue pure try query_status qmp_client gets
  state-still =
      ap (λ o. state_of_exit o (still w)) lives.no_exit
      ∙ ap (λ (p : Result Stop ℕ × World). state_of_pid p.0 p.1) qemu_pid-still
      ∙ ap
          (λ b.
            (if not b
                then pure State.dead
                else try query_status >>= λ s. pure (paused_or_running s))
              (still w))
          lives.alive
      ∙ ap (λ r. let (r', w') = as_failed r (still w) in (ok (paused_or_running r'), w'))
          lives.status_lem

  kill_end : Bool → Result Stop (Unit {0}) × World
  kill_end is_ok = (kill_if is_ok pid >>= λ u. reap_child) (still w)

  kill-still : kill (still w) ≡ kill_end (w.outside.can_kill pid)
  unfolding kill ◌>>=◌ continue look kill_end
  kill-still =
      ap (λ (p : Result Stop ℕ × World). continue p.0 (λ pid. kill_pid pid >>= λ u. reap_child) p.1)
        qemu_pid-still

  removed :
      (p : Result Stop (Unit {0}) × World)
      → p.1.acts ≡ w.acts ++ killed pid ∷ []
      → (continue p.0 (λ u. remove_files) p.1).1.acts ≡ w.acts ++ killed pid ∷ []
  unfolding continue remove_files
  removed (ok u, w') h = remove_files-Idle.at w' ∙ h
  removed (err e, w') h = h

  kill_end-AfterKill :
      (is_ok : Bool)
      → AfterKill is_ok pid w (continue (kill_end is_ok).0 (λ u. remove_files) (kill_end is_ok).1)
  unfolding ◌>>=◌ continue act raise kill_end
  kill_end-AfterKill true =
      removed (kill_end true)
        (reap_child-Idle.at (record (still w) { acts = w.acts ++ killed pid ∷ [] }))
  kill_end-AfterKill false = (refl, refl, refl)

-- Of a machine whose process is alive, with its id in the file and no exit code, and which answers its
-- status over the control channel, while nothing else changes: if the process is not paused, `delete`
-- kills it, or fails and leaves the files when it cannot be killed. If it is paused, `delete` succeeds
-- without a signal, and removes the file with the id.
pub delete-AfterDelete :
    (pid : ℕ) (status : Status) (w : World)
    → Lives pid status w.outside
    → AfterDelete pid status w (delete (still w))
unfolding delete ◌>>=◌ continue remove_files remove_file pure
delete-AfterDelete pid status w lives = go status lives
  where
    next : Result Stop State × World → Result Stop (Unit {0}) × World
    next p =
        continue p.0 (λ now. (if is_running now then kill else pure tt) >>= λ u. remove_files) p.1

    end : Result Stop (Unit {0}) × World → Result Stop (Unit {0}) × World
    end p = continue p.0 (λ u. remove_files) p.1

    go :
        (status : Status) → Lives pid status w.outside → AfterDelete pid status w (delete (still w))
    go Status.paused h =
        subst (AfterDelete pid Status.paused w) (sym (ap next (state-still pid Status.paused w h)))
          (refl, refl, refl, refl)
    go Status.running h =
        subst (AfterKill (w.outside.can_kill pid) pid w)
          (sym (
            ap next (state-still pid Status.running w h)
            ∙ ap end (kill-still pid Status.running w h)))
          (kill_end-AfterKill pid Status.running w h (w.outside.can_kill pid))
    go Status.transitional h =
        subst (AfterKill (w.outside.can_kill pid) pid w)
          (sym (
            ap next (state-still pid Status.transitional w h)
            ∙ ap end (kill-still pid Status.transitional w h)))
          (kill_end-AfterKill pid Status.transitional w h (w.outside.can_kill pid))
