-- ===== src/Tests/Lifecycles.antt =====
-- The theorems on running machines and on the guest agent, at small inputs.
use mathlib.Core.Option
use mirum.Base.{
  ℕ, pos, String, ◌≡◌, ◌≢◌, refl, inl, inr, Bool, true, false, Option, none, some, List, [], ◌∷◌,
  ◌++◌, ok, err, update, arith, ◌=s=◌, ◌==◌, if◌then◌else◌, ◌+◌, ◌*◌,
}
use mirum.Base.Text.{codes, is_whitespace}
use mirum.Base.Decimal.{parse_u64_codes}
use mirum.Base.Words.{trim, parse_i32, parse_unsigned}
use mirum.Base.Exec.{◌>>=◌}
use mirum.Hmi.Json.{Json}
use mirum.Vmm.Qemu.Cli.{to_argv}
use mirum.Vmm.Qemu.Machine.{ChosenPorts, start_command}
use mirum.Vmm.Qemu.Machine.Ports.{AreDifferent}
use mirum.Vmm.Qemu.Qmp.{Status}
use mirum.Vmm.Qemu.Outside.{
  remove_file, modify, look, write_file, act, ChildState, Outside, World, unfinished, spawned,
}
use mirum.Vmm.Qemu.Lifecycle.{remove_files, wait, delete}
use mirum.Vmm.Qemu.Lifecycle.Start
use mirum.Vmm.Qemu.Lifecycle.Start.{start, start_new, start_ports, free_port, spawn}
use mirum.Vmm.Qemu.Lifecycle.Waits.{wait-unfinished, wait-Ends}
use mirum.Vmm.Qemu.Lifecycle.Updates.{AfterUpdate, update-AfterUpdate}
use mirum.Vmm.Qemu.Lifecycle.Deletes.{AfterDelete, still, delete-AfterDelete}
use mirum.Vmm.Qemu.Lifecycle.Starts.{start-spawned}
use mirum.Vmm.Qemu.Supervise.{cpu_time}
use mirum.Vmm.Qemu.Supervise.Fields.{IsWord, spaced, cpu_time-spaced}
use mirum.Vmm.Qemu.Qga.{Agent, output, bits32, from_code}
use mirum.Vmm.Qemu.Qga.Polls.{exec, as_failed, polls, guest_exec, exec-polls}
use mirum.Tests.Machines.{machine, two_cpus}

-- A host on which everything goes well, and a paused machine with the process 42.
abbrev pub outside : Outside
outside = record {
  files = λ name. if name =s= "qemu.pid" then some "42" else none;
  is_alive = λ pid. pid == 42;
  proc_stat = λ pid. none;
  proc_status = λ pid. none;
  has_ended = false;
  wait_fails = false;
  has_kvm = true;
  free_port = some 5000;
  is_writable = true;
  can_spawn = true;
  can_kill = λ pid. true;
  can_connect = λ port. true;
  status = ok Status.paused;
  answer = λ c. ok tt;
  is_ready = λ port. true;
}

abbrev world : World
world = record {
  machine = machine;
  child = ChildState.running;
  is_connected = true;
  acts = [];
  outside = outside;
  changes = [];
}

-- qemu ends with the exit code 3.
abbrev ends : Outside → Outside
ends o = record o { files = update o.files "qemu.exit-code" (some "3\n"); has_ended = true }

wait-Ends_example : (wait 2 (record world { changes = ends ∷ [] })).0 ≡ ok 768
unfolding trim is_whitespace parse_i32 parse_unsigned parse_u64_codes bits32 from_code
wait-Ends_example =
    wait-Ends 768 0 (record world { changes = ends ∷ [] }) refl
      (
        record { told = inl refl; kept = λ h. cc; holds = refl },
        (λ h. cc),
        (record { told = inr refl; kept = λ h. refl; holds = refl }, refl),
      )

wait-unfinished_example :
    (wait 7 (record world { child = ChildState.running; changes = [] })).0 ≡ err unfinished
wait-unfinished_example = wait-unfinished 7 world refl refl

update-AfterUpdate_example :
    AfterUpdate
      (record two_cpus { ram = 2048 })
      world
      (Start.update (record two_cpus { ram = 2048 }) world)
update-AfterUpdate_example = update-AfterUpdate (record two_cpus { ram = 2048 }) world

delete-AfterDelete_example : AfterDelete 42 Status.paused world (delete (still world))
unfolding trim is_whitespace parse_unsigned parse_u64_codes
delete-AfterDelete_example =
    delete-AfterDelete 42 Status.paused world
      (record { no_exit = refl; pid_lem = refl; alive = refl; status_lem = refl })

-- The machine is started by a system that gives two ports.
abbrev fresh : World
fresh = record world {
  child = ChildState.not_started;
  changes =
      (λ o. o)
      ∷ (λ o. o)
      ∷ (λ o. o)
      ∷ (λ o. o)
      ∷ (λ o. o)
      ∷ (λ o. o)
      ∷ (λ o. o)
      ∷ (λ o. o)
      ∷ (λ o. record o { free_port = some 5001 })
      ∷ [];
}

start-spawned_example :
    (fresh.child ≢ ChildState.running)
    × ((start 1 fresh).1.child ≡ ChildState.running)
    × ((start 1 fresh).1.machine ≡ machine)
    × (ports : ChosenPorts) × (has_kvm : Bool) × AreDifferent ports.qmp ports.qga ports.console
    × ((start 1 fresh).1.acts ≡ spawned (to_argv (start_command machine has_kvm ports)) ∷ [])
unfolding start ◌>>=◌ start_new remove_files remove_file modify start_ports free_port look
    write_file spawn act
start-spawned_example = start-spawned 1 fresh refl

abbrev fields : List (List ℕ)
fields =
    codes "S"
    ∷ codes "1"
    ∷ codes "1"
    ∷ codes "1"
    ∷ codes "1"
    ∷ codes "1"
    ∷ codes "1"
    ∷ codes "1"
    ∷ codes "1"
    ∷ codes "1"
    ∷ codes "1"
    ∷ codes "70"
    ∷ codes "5"
    ∷ []

one : (c : ℕ) → is_whitespace c ≡ false → (c == b')') ≡ false → IsWord (c ∷ [])
one c h k = ((λ e. cc), ((h, k), tt))

cpu_time-spaced_example :
    cpu_time (codes "42 (a ) b" ++ b')' ∷ spaced fields) ≡ ok ((70 + 5) * 10000000)
unfolding is_whitespace parse_unsigned parse_u64_codes
cpu_time-spaced_example =
    cpu_time-spaced (codes "42 (a ) b") fields (codes "70") (codes "5") 70 5
      (
        one b'S' refl refl,
        (
          one b'1' refl refl,
          (
            one b'1' refl refl,
            (
              one b'1' refl refl,
              (
                one b'1' refl refl,
                (
                  one b'1' refl refl,
                  (
                    one b'1' refl refl,
                    (
                      one b'1' refl refl,
                      (
                        one b'1' refl refl,
                        (
                          one b'1' refl refl,
                          (
                            one b'1' refl refl,
                            (
                              ((λ h. cc), ((refl, refl), ((refl, refl), tt))),
                              (one b'5' refl refl, tt),
                            ),
                          ),
                        ),
                      ),
                    ),
                  ),
                ),
              ),
            ),
          ),
        ),
      )
      refl refl refl refl (omega arith)

-- A value is a table of numbers.
abbrev numbers : Json
numbers = record {
  Value = String → Option ℕ;
  get = λ v key. Option.map (λ n k. some n) (v key);
  as_str = λ v. none;
  raw_boot = λ v. err "none";
  raw_ssh = λ v. err "none";
  header = λ bytes. err "none";
  image = λ bytes. err "none";
}

abbrev agent : Agent numbers
agent = record {
  from_str = λ s. none;
  to_text = λ v. "";
  as_bool = λ v. Option.map (λ n. n == 1) (v "");
  as_i64 = λ v. Option.map pos (v "");
  decode_base64 = λ s. none;
}

abbrev started : String → Option ℕ
started key = if key =s= "pid" then some 9 else none

abbrev busy : String → Option ℕ
busy key = if key =s= "exited" then some 0 else none

abbrev exited : String → Option ℕ
exited key = if key =s= "exited" then some 1 else if key =s= "exitcode" then some 3 else none

exec-polls_example :
    exec numbers agent
      (λ v. v "")
      2
      ("true" ∷ [])
      (record { answers = ok started ∷ ok busy ∷ ok exited ∷ []; asked = [] })
    ≡ (
      as_failed (output numbers agent exited),
      record {
        answers = [];
        asked = guest_exec "true" [] ∷ polls numbers agent (λ v. v "") 9 (busy ∷ []);
      },
    )
exec-polls_example =
    exec-polls numbers agent (λ v. v "") "true" [] started 9 (busy ∷ []) exited [] 2 refl (refl, tt)
      refl (omega arith)
