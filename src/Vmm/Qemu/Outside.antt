-- ===== src/Vmm/Qemu/Outside.antt =====
-- What a `QemuMachine` keeps and sees, crates/mirum-vm-vmm/src/backend/qemu/mod.rs. Before each look
-- at the outside the next of a list of changes is made to it, by qemu, the wrapper or another program;
-- at the end of the list the outside stays as it is. A file is its text.
use mirum.Base.{
  ℕ, ℤ, String, Bool, true, false, Option, none, some, List, [], ◌∷◌, ◌++◌, Result, ok, err, update,
  if◌then◌else◌,
}
use mirum.Base.Exec.{Exec}
use mirum.Vmm.Types.{Error, io}
use mirum.Vmm.Qemu.Machine.{QemuMachine}
use mirum.Vmm.Qemu.Qmp.{Status}

-- `State` of crates/mirum-vm-vmm/src/machine.rs; `Restarting` is made nowhere.
pub data State : Type 0 where
  created running paused dead : State
  exited : ℤ → State

-- The wrapper process; the exit status is its 32 bits.
pub data ChildState : Type 0 where
  not_started running : ChildState
  exited : ℕ → ChildState

-- The commands of `Qmp` that answer nothing.
pub data QmpCommand : Type 0 where
  power_down reset pause resume : QmpCommand
  set_balloon_size : ℕ → QmpCommand

-- The files of the directory of the machine, by their names; which processes are alive, and what the
-- system says of them; whether the wrapper has ended, and whether waiting for it fails; and what a port, a signal, a start, a command or the agent would get now.
pub record Outside : Type 0 where
  pub files : String → Option String
  pub is_alive : ℕ → Bool
  pub proc_stat : ℕ → Option String
  pub proc_status : ℕ → Option String
  pub has_ended : Bool
  pub wait_fails : Bool
  pub has_kvm : Bool
  pub free_port : Option ℕ
  pub is_writable : Bool
  pub can_spawn : Bool
  pub can_kill : ℕ → Bool
  pub can_connect : ℕ → Bool
  pub status : Result Error Status
  pub answer : QmpCommand → Result Error (Unit {0})
  pub is_ready : ℕ → Bool

-- What the machine has done to processes.
pub data Act : Type 0 where
  killed : ℕ → Act
  spawned : List String → Act
  sent : QmpCommand → Act

pub record World : Type 0 where
  pub machine : QemuMachine
  pub child : ChildState
  pub is_connected : Bool
  pub acts : List Act
  pub outside : Outside
  pub changes : List (Outside → Outside)

-- A failure, or the code has not come to an end.
pub data Stop : Type 0 where
  failed : Error → Stop
  unfinished : Stop

abbrev pub V : Type 0 → Type 0
V A = Exec World Stop A

abbrev pub pass : List (Outside → Outside) → World → World
pass [] w = w
pass (change ∷ changes) w = record w { outside = change w.outside; changes = changes }

abbrev pub passed : World → World
passed w = pass w.changes w

unfoldable pub look : {A : Type 0} → (Outside → A) → V A
look f w = let w' = passed w in (ok (f w'.outside), w')

unfoldable pub modify : (World → World) → V (Unit {0})
modify f w = (ok tt, f w)

unfoldable pub read_file : String → V (Option String)
read_file name = look (λ o. o.files name)

unfoldable pub remove_file : String → V (Unit {0})
remove_file name w =
    let w' = passed w in
    (ok tt, record w' { outside = record w'.outside { files = update w'.outside.files name none } })

-- `tokio::fs::write(…)?`
abbrev pub store : String → String → Bool → World → Result Stop (Unit {0}) × World
store name text true w = (
  ok tt,
  record w { outside = record w.outside { files = update w.outside.files name (some text) } },
)
store name text false w = (err (failed io), w)

unfoldable pub write_file : String → String → V (Unit {0})
write_file name text w = let w' = passed w in store name text w'.outside.is_writable w'

unfoldable pub act : Act → V (Unit {0})
act a w = (ok tt, record w { acts = w.acts ++ a ∷ [] })

-- The result of code that may fail, also when it is not passed on.
unfoldable pub try : {A : Type 0} → V A → V (Result Stop A)
try m w = let (r, w') = m w in (ok r, w')

-- `c.wait()` on the wrapper: it is over when it fails, or when the wrapper has ended.
abbrev pub waited : Bool → Bool → Result Stop (Unit {0})
waited true has_ended = err (failed io)
waited false true = ok tt
waited false false = err unfinished

abbrev pub await_in : List (Outside → Outside) → World → Result Stop (Unit {0}) × World
await_in [] w = (waited w.outside.wait_fails w.outside.has_ended, w)
await_in (change ∷ changes) w =
    let w' = record w { outside = change w.outside; changes = changes } in
    let rest = await_in changes w' in
    if w'.outside.wait_fails
    then (err (failed io), w')
    else if w'.outside.has_ended
    then (ok tt, w')
    else rest

unfoldable pub await_wrapper : V (Unit {0})
await_wrapper w = await_in w.changes w

-- `let _ =`: a failure is not looked at.
abbrev pub passed_over : Result Stop (Unit {0}) → Result Stop (Unit {0})
passed_over (err (failed e)) = ok tt
passed_over (err unfinished) = err unfinished
passed_over (ok u) = ok tt

unfoldable pub pass_over : V (Unit {0}) → V (Unit {0})
pass_over m w = let (r, w') = m w in (passed_over r, w')
