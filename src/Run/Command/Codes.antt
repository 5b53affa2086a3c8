-- ===== src/Run/Command/Codes.antt =====
-- The exit code of `mirum-vm machine run` (crates/mirum-vm/src/main.rs).
use mirum.Base.{
  ◌*◌, ◌<◌, ℕ, suc, String, ◌≡◌, refl, ap, ◌∙◌, Option, none, some, Result, ok, err, arith,
}
use mirum.Base.Exec.{continue, ◌>>=◌}
use mirum.Hmi.Json.{Json}
use mirum.Oci.World.{World, External, Error as ImageError}
use mirum.Oci.Storage.{open_storage}
use mirum.Vmm.Qemu.Machine.{QemuMachine}
use mirum.Vmm.Qemu.Qga.{code}
use mirum.Vmm.Qemu.Outside as Vm
use mirum.Vmm.Qemu.Outside.{Stop, failed, unfinished}
use mirum.Vmm.Qemu.Lifecycle.{wait}
use mirum.Vmm.Qemu.Lifecycle.Start.{start}
use mirum.Vmm.Qemu.Lifecycle.Starts.{start-spawned}
use mirum.Vmm.Qemu.Lifecycle.Waits.{Ends, wait-Ends}
use mirum.Vmm.Qemu.Lifecycle.Written.{EndsWith, EndsWith-Ends, code-exit}
use mirum.Run.{RunError, cmd_run}
use mirum.Run.Command.{
  machine_run, Host, Process, code_or_one, die, fresh, run_machine, ended, booted, dispatch, opened,
  at_home, main,
}

module _ (J : Json) (X : External) (H : Host) (image : String) (port : ℕ) where
  -- From the opened storage to a machine that has been started.
  pub record Booted (fuel : ℕ) (w : World) : Type 0 where
    pub home : String
    pub opened_in : World
    pub made_in : World
    pub machine : QemuMachine
    pub started : Vm.World
    pub is_home : H.home ≡ some home
    pub opens : open_storage H.has_layout w ≡ (ok tt, opened_in)
    pub makes : cmd_run J X H.registry image H.scratch port opened_in ≡ (ok machine, made_in)
    pub starts : start fuel (fresh machine H.outside H.changes) ≡ (ok tt, started)

  -- When the machine is made and started, and its wrapper ends some time and then leaves the exit status
  -- of qemu: the process ends with the exit code in this status, or with 1 when a signal ended qemu.
  pub main-Ends :
      (fuel status more : ℕ) (w : World) (b : Booted fuel w)
      → Ends status b.started.changes b.started.outside
      → (main J X H fuel (suc (suc more)) (machine_run image port) w).0
        ≡ some (record { code = code_or_one (code status); line = none })
  unfolding main dispatch run_machine continue ◌>>=◌
  main-Ends fuel status more w b ends =
      ap (λ h. (at_home J X H fuel (suc (suc more)) (machine_run image port) h w).0) b.is_home
      ∙ ap (λ p. (opened J X H fuel (suc (suc more)) (machine_run image port) p).0) b.opens
      ∙ ap (λ p. booted J X H fuel (suc (suc more)) p.0) b.makes
      ∙ ap (λ p. ended J X H (continue p.0 (λ u. wait (suc (suc more))) p.1).0) b.starts
      ∙ ap (ended J X H) (wait-Ends status more b.started (start-spawned fuel _ b.starts).1 ends)

  -- When the store is opened and the machine is made and started, and its wrapper ends some time, can
  -- be waited for, and leaves the exit code of qemu, below 256, in the file as the shell prints it,
  -- having created the file empty or not before: the process ends with this exit code, whatever the
  -- rounds of `wait`, two at least.
  pub main-exit_text :
      (fuel n more : ℕ) (w : World) (b : Booted fuel w)
      → n < 256
      → EndsWith n b.started.changes b.started.outside
      → (main J X H fuel (suc (suc more)) (machine_run image port) w).0
        ≡ some (record { code = n; line = none })
  main-exit_text fuel n more w b small ends =
      main-Ends fuel (n * 256) more w b
        (EndsWith-Ends n b.started.changes b.started.outside small ends)
      ∙ ap (λ o. some (record { code = code_or_one o; line = none })) (code-exit n small)

  code-of : {p q : Process} → some p ≡ some q → p.code ≡ q.code
  code-of k = cc

  code_or_one-zero : (o : Option ℕ) → code_or_one o ≡ 0 → o ≡ some 0
  code_or_one-zero none h = absurd (omega (arith, h))
  code_or_one-zero (some n) h = ap some h

  -- If `machine run` ends with the exit code 0, then the machine was made and started, and `wait`
  -- returned a status with the exit code 0.
  pub main-zero :
      (fuel rounds : ℕ) (w : World) (process : Process)
      → (main J X H fuel rounds (machine_run image port) w).0 ≡ some process
      → process.code ≡ 0
      → (b : Booted fuel w) × (status : ℕ) × ((wait rounds b.started).0 ≡ ok status)
        × (code status ≡ some 0)
  unfolding main dispatch run_machine continue ◌>>=◌ die
  main-zero fuel rounds w process h z = at H.home refl h
    where
      Succeeds : Type 0
      Succeeds =
          (b : Booted fuel w) × (status : ℕ) × ((wait rounds b.started).0 ≡ ok status)
          × (code status ≡ some 0)

      waited :
          (b : Booted fuel w) (r : Result Stop ℕ)
          → (wait rounds b.started).0 ≡ r
          → ended J X H r ≡ some process
          → Succeeds
      waited b (ok status) e k = (b, status, e, code_or_one-zero (code status) (code-of k ∙ z))
      waited b (err (failed error)) e k = absurd (omega (arith, code-of k, z))
      waited b (err unfinished) e k = cc

      started :
          (home : String) (v v' : World) (machine : QemuMachine)
          → H.home ≡ some home
          → open_storage H.has_layout w ≡ (ok tt, v)
          → cmd_run J X H.registry image H.scratch port v ≡ (ok machine, v')
          → (p : Result Stop (Unit {0}) × Vm.World)
          → start fuel (fresh machine H.outside H.changes) ≡ p
          → ended J X H (continue p.0 (λ u. wait rounds) p.1).0 ≡ some process
          → Succeeds
      started home v v' machine i o m (ok tt, u) s k =
          waited
            (record {
              home = home;
              opened_in = v;
              made_in = v';
              machine = machine;
              started = u;
              is_home = i;
              opens = o;
              makes = m;
              starts = s;
            })
            _ refl k
      started home v v' machine i o m (err (failed error), u) s k =
          absurd (omega (arith, code-of k, z))
      started home v v' machine i o m (err unfinished, u) s k = cc

      made :
          (home : String) (v : World)
          → H.home ≡ some home
          → open_storage H.has_layout w ≡ (ok tt, v)
          → (p : Result RunError QemuMachine × World)
          → cmd_run J X H.registry image H.scratch port v ≡ p
          → booted J X H fuel rounds p.0 ≡ some process
          → Succeeds
      made home v i o (ok machine, v') m k = started home v v' machine i o m _ refl k
      made home v i o (err error, v') m k = absurd (omega (arith, code-of k, z))

      opened_by :
          (home : String)
          → H.home ≡ some home
          → (p : Result ImageError (Unit {0}) × World) → open_storage H.has_layout w ≡ p
          → (opened J X H fuel rounds (machine_run image port) p).0 ≡ some process
          → Succeeds
      opened_by home i (ok tt, v) o k = made home v i o _ refl k
      opened_by home i (err error, v) o k = absurd (omega (arith, code-of k, z))

      at :
          (o : Option String)
          → H.home ≡ o
          → (at_home J X H fuel rounds (machine_run image port) o w).0 ≡ some process
          → Succeeds
      at none i k = absurd (omega (arith, code-of k, z))
      at (some home) i k = opened_by home i _ refl k
