-- ===== src/Vmm/Qemu/Lifecycle.antt =====
-- The operations of `QemuMachine`, crates/mirum-vm-vmm/src/backend/qemu/mod.rs, but `attach` and
-- `exec`. A loop that waits in the source runs on fuel here if nothing bounds it there.
pub mod Start
pub mod Waits
pub mod Looks
pub mod Updates
pub mod Deletes
pub mod Starts
pub mod Access
pub mod Written
use mirum.Base.{
  ℕ, zero, suc, ◌+◌, ◌*◌, ◌%◌, ◌^◌, ℤ, pos, negsuc, String, ◌<>◌, Bool, true, false, not, ◌&&◌,
  ◌||◌, Option, none, some, List, [], ◌∷◌, ◌++◌, Result, ok, err, ◌==◌, if◌then◌else◌,
}
use mathlib.Core.Option
use mirum.Base.Exec.{Exec, pure, raise, lift, gets, ◌>>=◌, ◌>>◌}
use mirum.Base.Text.{codes}
use mirum.Base.Words.{trim, parse_i32, parse_unsigned}
use mirum.Base.Decimal.{decimal}
use mirum.Vmm.Types.{Error, io, invalid_state, unsupported, Settings}
use mirum.Vmm.Qemu.Cli.{to_argv}
use mirum.Vmm.Qemu.Qmp.{Status, paused}
use mirum.Vmm.Qemu.Supervise.{read_time, read_memory}
use mirum.Vmm.Qemu.Qga.{bits32, from_code, code}
use mirum.Vmm.Qemu.Machine.{QemuMachine, ChosenPorts, start_command}
use mirum.Vmm.Qemu.Outside.{
  State, ChildState, QmpCommand, power_down, reset, pause, resume, set_balloon_size, Outside, Act,
  killed, spawned, sent, World, Stop, failed, unfinished, V, look, modify, read_file, remove_file,
  write_file, act, try, await_wrapper, pass_over,
}

abbrev pub parse_with : {A : Type 0} → (List ℕ → Option A) → Option String → Option A
parse_with parse none = none
parse_with parse (some text) = parse (trim (codes text))

abbrev status_bits : Option ℕ → Option ℕ
status_bits none = none
status_bits (some bits) = some (from_code bits)

abbrev pub exit_of : Option ℤ → Option ℕ
exit_of none = none
exit_of (some n) = status_bits (bits32 n)

unfoldable pub read_exit_code : V (Option ℕ)
read_exit_code = do text ← read_file "qemu.exit-code"; pure (exit_of (parse_with parse_i32 text))

abbrev pub found : {A : Type 0} → Option A → V A → V A
found (some a) later = pure a
found none later = later

abbrev pub parse_pid : Option String → Option ℕ
parse_pid = parse_with (parse_unsigned (2 ^ 32))

pid_rounds : ℕ → V ℕ
pid_rounds zero = raise (failed (invalid_state "qemu did not write its pidfile in time"))
pid_rounds (suc rounds) = do text ← read_file "qemu.pid"; found (parse_pid text) (pid_rounds rounds)

unfoldable pub qemu_pid : V ℕ
unfolding pid_rounds
qemu_pid = pid_rounds 50

abbrev pub port_of : String → Option String → V ℕ
port_of name none = raise (failed io)
port_of name (some text) =
    found (parse_unsigned (2 ^ 16) (trim (codes text)))
      (raise (failed (invalid_state ("invalid " <> name <> " port contents"))))

unfoldable pub read_port : String → String → V ℕ
read_port file name = read_file file >>= port_of name

connect_rounds : ℕ → ℕ → V (Unit {0})
connect_rounds port zero = raise (failed (invalid_state "qemu's qmp port never came up"))
connect_rounds port (suc rounds) = do
  is_up ← look (λ o. o.can_connect port)
  (if is_up then modify (λ w. record w { is_connected = true }) else connect_rounds port rounds)

-- `qmp_client`: the connection is there afterwards.
unfoldable pub qmp_client : V (Unit {0})
unfolding connect_rounds
qmp_client = do
  has_client ← gets (λ w. w.is_connected)
  (if has_client
      then pure tt
      else read_port "qemu.qmp-port" "qmp" >>= λ port. connect_rounds port 50)

abbrev pub as_failed : {A : Type 0} → Result Error A → V A
as_failed (ok a) = pure a
as_failed (err e) = raise (failed e)

unfoldable pub command : QmpCommand → V (Unit {0})
command c = do qmp_client; act (sent c); answer ← look (λ o. o.answer c); as_failed answer

unfoldable pub query_status : V Status
query_status = do qmp_client; answer ← look (λ o. o.status); as_failed answer

abbrev pub code_of : ℕ → ℤ
code_of status = elim (code status) [ none ↦ negsuc 0 | some n ↦ pos n ]

abbrev state_of_child : ChildState → State
state_of_child ChildState.not_started = State.created
state_of_child (ChildState.exited status) = State.exited (code_of status)
state_of_child ChildState.running = State.running

abbrev pub paused_or_running : Result Stop Status → State
paused_or_running (ok Status.paused) = State.paused
paused_or_running _ = State.running

abbrev pub state_of_pid : Result Stop ℕ → V State
state_of_pid (err e) = gets (λ w. state_of_child w.child)
state_of_pid (ok pid) = do
  is_alive ← look (λ o. o.is_alive pid)
  (if not is_alive
      then pure State.dead
      else try query_status >>= λ status. pure (paused_or_running status))

abbrev pub state_of_exit : Option ℕ → V State
state_of_exit (some status) = pure (State.exited (code_of status))
state_of_exit none = try qemu_pid >>= state_of_pid

unfoldable pub state : V State
state = read_exit_code >>= state_of_exit

abbrev pub reap : ChildState → V (Unit {0})
reap ChildState.running = pass_over await_wrapper
reap _ = pure tt

abbrev pub set_child : Option ℕ → V (Unit {0})
set_child none = pure tt
set_child (some status) = modify (λ w. record w { child = ChildState.exited status })

-- `kill -KILL` of the process, which is killed if the command ends with success.
abbrev pub kill_if : Bool → ℕ → V (Unit {0})
kill_if true pid = act (killed pid)
kill_if false pid = raise (failed io)

abbrev pub kill_pid : ℕ → V (Unit {0})
kill_pid pid = look (λ o. o.can_kill pid) >>= λ is_ok. kill_if is_ok pid

abbrev pub reap_child : V (Unit {0})
reap_child = do child ← gets (λ w. w.child); reap child; status ← read_exit_code; set_child status

unfoldable pub kill : V (Unit {0})
kill = do pid ← qemu_pid; kill_pid pid; reap_child

unfoldable pub remove_files : V (Unit {0})
remove_files = do
  remove_file "qemu.pid"
  remove_file "qemu.exit-code"
  remove_file "qemu.qmp-port"
  remove_file "qemu.qga-port"
  remove_file "qemu.console-port"
  remove_file "console.log"

abbrev pub is_running : State → Bool
is_running State.running = true
is_running _ = false

unfoldable pub delete : V (Unit {0})
delete = do now ← state; (if is_running now then kill else pure tt); remove_files

unfoldable pub stop : V (Unit {0})
stop = command power_down

unfoldable pub restart : V (Unit {0})
restart = command reset

unfoldable pub pause_machine : V (Unit {0})
pause_machine = command pause

unfoldable pub unpause : V (Unit {0})
unpause = command resume

abbrev or_empty : Option String → String
or_empty none = ""
or_empty (some text) = text

-- A log that is not there is empty.
unfoldable pub logs : V String
logs = read_file "console.log" >>= λ text. pure (or_empty text)

unfoldable pub stats : V (ℕ × ℕ)
stats = do
  pid ← qemu_pid
  stat ← look (λ o. o.proc_stat pid)
  time ← as_failed (read_time stat)
  status ← look (λ o. o.proc_status pid)
  bytes ← as_failed (read_memory status)
  pure (time, bytes)

unfoldable pub rename : Option String → V (Unit {0})
rename name = modify (λ w. record w { machine = record w.machine { name = name } })

-- `wait`, at most so many rounds of its loop.
abbrev wait_child : ChildState → V ℕ → V ℕ
wait_child ChildState.running later = await_wrapper >> later
wait_child (ChildState.exited status) later = pure status
wait_child ChildState.not_started later = raise (failed (invalid_state "not started"))

abbrev wait_exit : Option ℕ → V ℕ → V ℕ
wait_exit (some status) later = do
  modify (λ w. record w { child = ChildState.exited status })
  pure status
wait_exit none later = gets (λ w. w.child) >>= λ child. wait_child child later

unfoldable pub wait : ℕ → V ℕ
wait zero = raise unfinished
wait (suc rounds) = read_exit_code >>= λ status. wait_exit status (wait rounds)
