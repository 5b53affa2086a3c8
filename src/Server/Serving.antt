-- ===== src/Server/Serving.antt =====
-- `serve` and the end of `run` of crates/mirum-server/src/daemon.rs, as what happens one after the
-- other: connections are accepted, served and joined, until a signal makes the server end. A `select`
-- may take any of its branches that is ready, so that a connection may also be accepted between the
-- signal and the end of the loop.
pub mod Stepped
pub mod Drains
pub mod Live
use mirum.Base.{
  ℕ, zero, suc, ◌+◌, ◌≡◌, Bool, true, false, not, ◌&&◌, Option, none, some, List, [], ◌∷◌, ◌++◌,
  Result, ok, err, if◌then◌else◌,
}

-- The task of a connection: it serves, it has been told to end gracefully, or it is over.
pub data Task : Type 0 where
  serving closing over : Task

-- `result?` of the listener, and the deadline of the shutdown.
pub data Failure : Type 0 where
  accept_failed timed_out : Failure

-- Where `run` is: in the loop of `serve`, in the one after it, at `drain_handle.wait()`, or at its end.
pub data Phase : Type 0 where
  accepting joining waiting : Phase
  returned : Result Failure (Unit {0}) → Phase

pub record Serving : Type 0 where
  pub phase : Phase
  pub connections : List Task
  pub is_cancelled : Bool

unfoldable pub listening : Serving
listening = record { phase = accepting; connections = []; is_cancelled = false }

-- What may happen; a connection is named by its place in the set.
pub data Event : Type 0 where
  accepted accept_error signal cancel_seen all_joined drained deadline : Event
  told finished joined : ℕ → Event

abbrev pub is_accepting : Phase → Bool
is_accepting accepting = true
is_accepting _ = false

abbrev pub is_returned : Phase → Bool
is_returned (returned r) = true
is_returned _ = false

abbrev pub is_joining : Phase → Bool
is_joining joining = true
is_joining _ = false

abbrev pub is_waiting : Phase → Bool
is_waiting waiting = true
is_waiting _ = false

abbrev pub is_empty : List Task → Bool
is_empty [] = true
is_empty _ = false

abbrev pub guard {ℓ} : {A : Type ℓ} → Bool → A → Option A
guard true a = some a
guard false a = none

abbrev pub more : List Task → Option (List Task) → Option (List Task)
more before none = none
more before (some l) = some (before ++ l)

abbrev pub instead : Option (List Task) → List Task → Option (List Task)
instead none rest = none
instead (some l) rest = some (l ++ rest)

-- The task at a place is replaced, or removed.
unfoldable pub at : (Task → Option (List Task)) → ℕ → List Task → Option (List Task)
at f n [] = none
at f zero (c ∷ cs) = instead (f c) cs
at f (suc n) (c ∷ cs) = more (c ∷ []) (at f n cs)

abbrev pub tell : Task → Option (List Task)
tell serving = some (closing ∷ [])
tell _ = none

abbrev pub finish : Task → Option (List Task)
finish over = none
finish _ = some (over ∷ [])

abbrev pub join : Task → Option (List Task)
join over = some []
join _ = none

abbrev pub with_tasks : Serving → Option (List Task) → Option Serving
with_tasks s none = none
with_tasks s (some cs) = some (record s { connections = cs })

abbrev pub then_some {ℓ} : {A : Type ℓ} → Bool → Option A → Option A
then_some true o = o
then_some false o = none

-- The state after an event, if it can happen. A `JoinSet` that is dropped ends its tasks.
unfoldable pub step : Event → Serving → Option Serving
step accepted s =
    guard (is_accepting s.phase) (record s { connections = s.connections ++ serving ∷ [] })
step accept_error s =
    guard (is_accepting s.phase)
      (record s { phase = returned (err accept_failed); connections = [] })
step signal s =
    guard (is_accepting s.phase && not s.is_cancelled) (record s { is_cancelled = true })
step cancel_seen s = guard (is_accepting s.phase && s.is_cancelled) (record s { phase = joining })
step (told n) s = then_some s.is_cancelled (with_tasks s (at tell n s.connections))
step (finished n) s = with_tasks s (at finish n s.connections)
step (joined n) s = with_tasks s (at join n s.connections)
step all_joined s =
    guard (is_joining s.phase && is_empty s.connections) (record s { phase = waiting })
step drained s = guard (is_waiting s.phase) (record s { phase = returned (ok tt) })
step deadline s =
    guard (s.is_cancelled && not (is_returned s.phase))
      (record s { phase = returned (err timed_out); connections = [] })

abbrev pub and_then : Option Serving → (Serving → Option Serving) → Option Serving
and_then none f = none
and_then (some s) f = f s

-- The events happen one after the other.
unfoldable pub play : List Event → Serving → Option Serving
play [] s = some s
play (event ∷ events) s = and_then (step event s) (play events)

abbrev pub is_accept : Event → Bool
is_accept accepted = true
is_accept _ = false

abbrev pub is_join : Event → Bool
is_join (joined n) = true
is_join _ = false

abbrev pub is_signal : Event → Bool
is_signal signal = true
is_signal _ = false

abbrev pub is_deadline : Event → Bool
is_deadline deadline = true
is_deadline _ = false

unfoldable pub how_many : (Event → Bool) → List Event → ℕ
how_many test [] = 0
how_many test (event ∷ events) = (if test event then 1 else 0) + how_many test events
