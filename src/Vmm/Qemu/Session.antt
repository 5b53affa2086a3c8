-- ===== src/Vmm/Qemu/Session.antt =====
-- The commands of crates/mirum-vm-vmm/src/backend/qemu/qmp.rs on a connection: what is written, and
-- the lines that are left to read.
pub mod Replies
use mirum.Base.{
  ℕ, String, ◌<>◌, Bool, true, false, Option, none, some, List, [], ◌∷◌, ◌++◌, Result, ok, err,
  ok_or, ◌=s=◌, if◌then◌else◌,
}
use mirum.Base.Exec.{Exec, pure, lift, ◌>>=◌, ◌>>◌}
use mirum.Hmi.Json.{Json}
use mirum.Vmm.Types.{Error, io, invalid_state}
use mirum.Vmm.Qemu.Qmp.{Wire, Status, running, paused, transitional, read_message, response}
use mirum.Vmm.Qemu.Outside.{QmpCommand, power_down, reset, pause, resume, set_balloon_size}

-- `Status::from_wire`
unfoldable pub from_wire : String → Status
from_wire status =
    if status =s= "running" then running else if status =s= "paused" then paused else transitional

-- What `execute` writes as JSON on a line; the one argument is that of `balloon`.
pub record Request : Type 0 where
  pub execute : String
  pub value : Option ℕ

-- `Qmp`; at each write, whether it succeeds, and it does when there is no more to say.
pub record Session : Type 0 where
  pub incoming : List String
  pub sent : List Request
  pub writes : List Bool

abbrev pub written : Request → List Bool → Session → Result Error (Unit {0}) × Session
written request [] s = (ok tt, record s { sent = s.sent ++ request ∷ [] })
written request (true ∷ writes) s =
    (ok tt, record s { sent = s.sent ++ request ∷ []; writes = writes })
written request (false ∷ writes) s = (err io, record s { writes = writes })

-- `writer.write_all(…)`
unfoldable pub write : Request → Exec Session Error (Unit {0})
write request s = written request s.writes s

module _ (J : Json) (W : Wire J) where
  open J use {Value, get, as_str}

  abbrev pub in_session : Session → Result Error Value × List String → Result Error Value × Session
  in_session s (r, lines) = (r, record s { incoming = lines })

  unfoldable pub receive : Exec Session Error Value
  receive s = in_session s (read_message J W s.incoming)

  unfoldable pub execute : Request → Exec Session Error Value
  execute request = do
    write request
    value ← receive
    lift (response J W request.execute value (get value "error") (get value "return"))

  -- The handshake on a new connection: the greeting, and the first command.
  unfoldable pub connect : Exec Session Error (Unit {0})
  connect = do receive; execute (record { execute = "qmp_capabilities"; value = none }); pure tt

  abbrev pub text_of : Option Value → Option String
  text_of none = none
  text_of (some value) = as_str value

  unfoldable pub status : Exec Session Error Status
  status = do
    value ← execute (record { execute = "query-status"; value = none })
    text ←
        lift
          (ok_or (text_of (get value "status")) (invalid_state "invalid qmp 'query-status' result"))
    pure (from_wire text)

  abbrev pub request_of : QmpCommand → Request
  request_of power_down = record { execute = "system_powerdown"; value = none }
  request_of reset = record { execute = "system_reset"; value = none }
  request_of pause = record { execute = "stop"; value = none }
  request_of resume = record { execute = "cont"; value = none }
  request_of (set_balloon_size bytes) = record { execute = "balloon"; value = some bytes }

  -- `power_down`, `reset`, `pause`, `resume` and `set_balloon_size`
  unfoldable pub command : QmpCommand → Exec Session Error (Unit {0})
  command c = do execute (request_of c); pure tt
