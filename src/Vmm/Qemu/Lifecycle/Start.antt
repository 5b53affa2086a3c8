-- ===== src/Vmm/Qemu/Lifecycle/Start.antt =====
-- `start` and `update` of crates/mirum-vm-vmm/src/backend/qemu/mod.rs. The product of `update` wraps
-- around, as without overflow checks. A loop that looks for a port runs on fuel.
use mirum.Base.{
  ℕ, zero, suc, ◌*◌, ◌%◌, ◌^◌, String, Bool, true, false, not, ◌&&◌, Option, none, some, List, [],
  ◌∷◌, ◌==◌, if◌then◌else◌,
}
use mirum.Base.Exec.{pure, raise, gets, ◌>>=◌, ◌>>◌}
use mirum.Base.Decimal.{decimal}
use mirum.Vmm.Types.{io, invalid_state, unsupported, Settings}
use mirum.Vmm.Monitor.{has_id}
use mirum.Vmm.Qemu.Cli.{to_argv}
use mirum.Vmm.Qemu.Machine.{QemuMachine, ChosenPorts, start_command}
use mirum.Vmm.Qemu.Machine.Ports.{used_by}
use mirum.Vmm.Qemu.Outside.{
  ChildState, set_balloon_size, spawned, failed, unfinished, V, look, modify, write_file, act, try,
}
use mirum.Vmm.Qemu.Lifecycle.{found, command, kill, remove_files}

-- `qmp::free_port().await?`
unfoldable pub free_port : V ℕ
free_port = look (λ o. o.free_port) >>= λ port. found port (raise (failed io))

abbrev pub port_rounds : List ℕ → ℕ → V ℕ
port_rounds used zero = raise unfinished
port_rounds used (suc rounds) = do
  port ← free_port
  (if has_id used port then port_rounds used rounds else pure port)

abbrev pub start_qga : ℕ → Bool → ℕ → V (Option ℕ)
start_qga fuel false qmp = pure none
start_qga fuel true qmp = do
  port ← port_rounds (qmp ∷ []) fuel
  write_file "qemu.qga-port" (decimal port)
  pure (some port)

-- The ports, which are written to their files.
unfoldable pub start_ports : ℕ → Bool → V ChosenPorts
start_ports fuel has_qga = do
  qmp ← free_port
  write_file "qemu.qmp-port" (decimal qmp)
  qga ← start_qga fuel has_qga qmp
  console ← port_rounds (used_by qmp qga) fuel
  write_file "qemu.console-port" (decimal console)
  pure record { qmp = qmp; qga = qga; console = console }

-- `supervise::spawn` of the command.
unfoldable pub spawn : List String → V (Unit {0})
spawn argv = do
  can ← look (λ o. o.can_spawn)
  (if can then act (spawned argv) else raise (failed io))

-- The agent that is promised must answer; otherwise the machine is killed.
abbrev pub make_ready : Option ℕ → V (Unit {0})
make_ready none = pure tt
make_ready (some port) = do
  is_ready ← look (λ o. o.is_ready port)
  (if is_ready
      then pure tt
      else try kill
        >> raise
            (failed (invalid_state "declared qga access did not become ready within 60 seconds")))

abbrev pub is_started : ChildState → Bool
is_started ChildState.running = true
is_started _ = false

unfoldable pub start_new : ℕ → QemuMachine → V (Unit {0})
start_new fuel machine = do
  remove_files
  modify (λ w. record w { is_connected = false })
  ports ← start_ports fuel machine.qga
  has_kvm ← look (λ o. o.has_kvm)
  spawn (to_argv (start_command machine has_kvm ports))
  modify (λ w. record w { child = ChildState.running })
  make_ready ports.qga

unfoldable pub start : ℕ → V (Unit {0})
start fuel = do
  w ← gets (λ w. w)
  (if is_started w.child
      then raise (failed (invalid_state "already started"))
      else start_new fuel w.machine)

abbrev pub same_forwards : List (ℕ × ℕ) → List (ℕ × ℕ) → Bool
same_forwards [] [] = true
same_forwards ((a, b) ∷ l) ((c, d) ∷ m) = a == c && b == d && same_forwards l m
same_forwards _ _ = false

abbrev pub resize : Settings → Settings → V (Unit {0})
resize old new =
    if new.ram == old.ram
    then pure tt
    else command (set_balloon_size ((new.ram * 1024 * 1024) % 2 ^ 64))

abbrev pub apply_settings : Settings → Settings → V (Unit {0})
apply_settings old new = do
  resize old new
  modify (λ w. record w { machine = record w.machine { settings = new } })

abbrev pub refuse_cpu : V (Unit {0})
refuse_cpu = raise (
    failed (unsupported "qemu backend can't hot-change cpu count (needs maxcpus reserved at boot)"))

abbrev pub refuse_forwards : V (Unit {0})
refuse_forwards = raise (
    failed
      (unsupported "qemu backend can't hot-change port forwards (fixed at boot via -net user)"))

unfoldable pub update : Settings → V (Unit {0})
update settings = do
  old ← gets (λ w. w.machine.settings)
  (if not (settings.cpu == old.cpu)
      then refuse_cpu
      else if not (same_forwards settings.port_forwards old.port_forwards)
      then refuse_forwards
      else apply_settings old settings)
