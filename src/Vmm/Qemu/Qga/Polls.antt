-- ===== src/Vmm/Qemu/Qga/Polls.antt =====
-- `exec` and `wait_until_ready` of crates/mirum-vm-vmm/src/backend/qemu/qga.rs. What `execute` comes
-- to, call by call, is a list of answers, a timeout among them; what was asked is kept.
use mathlib.Core.List.{append_assoc}
use mirum.Base.{
  ◌<◌, arith, ℕ, zero, suc, String, ◌<>◌, ◌≡◌, ap, ◌∙◌, Bool, true, false, Option, some, List, [],
  ◌∷◌, ◌++◌, map, Result, ok, err, All, length, ok_or, if◌then◌else◌,
}
use mirum.Base.Exec.{Exec, raise, lift, continue, ◌>>=◌}
use mirum.Base.Decimal.{decimal}
use mirum.Hmi.Json.{Json}
use mirum.Vmm.Types.{Error, invalid_state}
use mirum.Vmm.Qemu.Qga.{Agent, field, is_true, Output, output}

pub data Request : Type 0 where
  guest_exec : String → List String → Request
  guest_exec_status : ℕ → Request

-- A failure, or the agent has not answered yet.
pub data Unanswered : Type 0 where
  failed : Error → Unanswered
  waiting : Unanswered

pub record Channel (V : Type 0) : Type 0 where
  pub answers : List (Result Error V)
  pub asked : List Request

abbrev pub as_failed : {A : Type 0} → Result Error A → Result Unanswered A
as_failed (ok a) = ok a
as_failed (err e) = err (failed e)

abbrev answer :
    {V : Type 0} → Request → List (Result Error V) → List Request → Result Unanswered V × Channel V
answer request [] asked = (err waiting, record { answers = []; asked = asked ++ request ∷ [] })
answer request (a ∷ answers) asked =
    (as_failed a, record { answers = answers; asked = asked ++ request ∷ [] })

-- `execute(…).await`
unfoldable pub ask : {V : Type 0} → Request → Exec (Channel V) Unanswered V
ask request c = answer request c.answers c.asked

-- Whether a ping was answered, and whether the time was over then, attempt by attempt.
unfoldable pub wait_until_ready : List (Bool × Bool) → ℕ → Result Unanswered (Unit {0})
wait_until_ready [] seconds = err waiting
wait_until_ready ((answered, is_late) ∷ attempts) seconds =
    let later = wait_until_ready attempts seconds in
    if answered
    then ok tt
    else if is_late
    then err (
        failed (
          invalid_state
            ("declared qga access did not become ready within " <> decimal seconds <> " seconds")))
    else later

module _ (J : Json) (A : Agent J) (as_u64 : J.Value → Option ℕ) where
  open J use {Value, get}

  abbrev pub has_exited : Value → Bool
  has_exited status = is_true J A (field J A A.as_bool (get status "exited"))

  -- The loop, at most so many rounds of it.
  unfoldable pub poll : ℕ → ℕ → Exec (Channel Value) Unanswered Output
  poll zero pid = raise waiting
  poll (suc rounds) pid = do
    status ← ask (guest_exec_status pid)
    (if has_exited status then lift (as_failed (output J A status)) else poll rounds pid)

  abbrev pid_of : Value → Result Unanswered ℕ
  pid_of started =
      ok_or (field J A as_u64 (get started "pid"))
        (failed (invalid_state "qga guest-exec returned no pid"))

  unfoldable pub exec : ℕ → List String → Exec (Channel Value) Unanswered Output
  exec rounds [] = raise (failed (invalid_state "exec command must not be empty"))
  exec rounds (path ∷ args) = do
    started ← ask (guest_exec path args)
    pid ← lift (pid_of started)
    poll rounds pid

  -- One question for each of the answers, and one more.
  abbrev pub polls : ℕ → List Value → List Request
  polls pid [] = guest_exec_status pid ∷ []
  polls pid (status ∷ busy) = guest_exec_status pid ∷ polls pid busy

  poll-polls :
      (pid rounds : ℕ) (busy : List Value) (status : Value) (after : List (Result Error Value))
      (asked : List Request)
      → All (λ s. has_exited s ≡ false) busy
      → has_exited status ≡ true
      → length busy < rounds
      → poll rounds pid (record { answers = map ok busy ++ ok status ∷ after; asked = asked }) ≡ (
        as_failed (output J A status),
        record { answers = after; asked = asked ++ polls pid busy },
      )
  unfolding poll ask raise lift ◌>>=◌ continue
  poll-polls pid zero busy status after asked h k small = absurd (omega (arith, small))
  poll-polls pid (suc rounds) [] status after asked h k small =
      ap
        (λ b.
          (if b then lift (as_failed (output J A status)) else poll rounds pid)
            (record { answers = after; asked = asked ++ guest_exec_status pid ∷ [] }))
        k
  poll-polls pid (suc rounds) (b ∷ busy) status after asked h k small =
      ap
        (λ e. (if e then lift (as_failed (output J A b)) else poll rounds pid) (record {
          answers = map ok busy ++ ok status ∷ after;
          asked = asked ++ guest_exec_status pid ∷ [];
        }))
        h.0
      ∙ poll-polls pid rounds busy status after (asked ++ guest_exec_status pid ∷ []) h.1 k
          (omega (arith, small))
      ∙ ap (λ l. (as_failed (output J A status), record { answers = after; asked = l }))
          (append_assoc asked (guest_exec_status pid ∷ []) (polls pid busy))

  -- When the agent has started the command and given its process id, `exec` asks for the status of
  -- this process, however often it is told that it has not exited, and answers with what the first
  -- status with an exit says; it makes one round more than that at most.
  pub exec-polls :
      (path : String) (args : List String) (started : Value) (pid : ℕ) (busy : List Value)
      (status : Value) (after : List (Result Error Value)) (rounds : ℕ)
      → field J A as_u64 (get started "pid") ≡ some pid
      → All (λ s. has_exited s ≡ false) busy
      → has_exited status ≡ true
      → length busy < rounds
      → exec rounds
          (path ∷ args)
          (record { answers = ok started ∷ (map ok busy ++ ok status ∷ after); asked = [] })
        ≡ (
          as_failed (output J A status),
          record { answers = after; asked = guest_exec path args ∷ polls pid busy },
        )
  unfolding exec ask lift ◌>>=◌ continue
  exec-polls path args started pid busy status after rounds p h k small =
      ap
        (λ o.
          continue (ok_or o (failed (invalid_state "qga guest-exec returned no pid"))) (poll rounds)
            (record {
              answers = map ok busy ++ ok status ∷ after;
              asked = guest_exec path args ∷ [];
            }))
        p
      ∙ poll-polls pid rounds busy status after (guest_exec path args ∷ []) h k small
