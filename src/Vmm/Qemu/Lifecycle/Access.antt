-- ===== src/Vmm/Qemu/Lifecycle/Access.antt =====
-- `exec` and `attach` of `QemuMachine`, crates/mirum-vm-vmm/src/backend/qemu/mod.rs. What the agent
-- answers is given; the lock that keeps two calls of `exec` apart is not part of this.
use mirum.Base.{
  ℕ, zero, suc, String, ◌<>◌, ◌≡◌, refl, ap, ◌∙◌, Bool, true, false, not, Option, some, List, [],
  ◌^◌, Result, ok, err, if◌then◌else◌,
}
use mirum.Base.Exec.{pure, raise, lift, gets, continue, ◌>>=◌}
use mirum.Base.Text.{codes}
use mirum.Base.Words.{trim, parse_unsigned}
use mirum.Hmi.Json.{Json}
use mirum.Vmm.Types.{Error, invalid_state, unsupported}
use mirum.Vmm.Qemu.Qga.{Agent, Output}
use mirum.Vmm.Qemu.Qga.Polls as Polls
use mirum.Vmm.Qemu.Outside.{World, Stop, failed, unfinished, V, pass, look, read_file}
use mirum.Vmm.Qemu.Lifecycle.{read_port, port_of, found}

abbrev pub stopped : {A : Type 0} → Result Polls.Unanswered A → Result Stop A
stopped (ok a) = ok a
stopped (err (Polls.failed error)) = err (failed error)
stopped (err Polls.waiting) = err unfinished

module _ (J : Json) (A : Agent J) (as_u64 : J.Value → Option ℕ) where
  unfoldable pub exec : ℕ → List String → List (Result Error J.Value) → V Output
  exec rounds cmd answers = do
    has_qga ← gets (λ w. w.machine.qga)
    (if not has_qga
        then raise (failed (unsupported "this image does not declare qga access"))
        else read_port "qemu.qga-port" "qga" >>= λ port. lift (
            stopped
              (Polls.exec J A as_u64 rounds cmd (record { answers = answers; asked = [] })).0))

console_rounds : ℕ → ℕ → V ℕ
console_rounds port zero =
    raise (failed (invalid_state "qemu serial console did not become available"))
console_rounds port (suc rounds) =
    let later = console_rounds port rounds in
    do is_up ← look (λ o. o.can_connect port); if is_up then pure port else later

-- The port that the console is connected to.
unfoldable pub attach : V ℕ
unfolding console_rounds
attach = read_port "qemu.console-port" "console" >>= λ port. console_rounds port 50

attached : ℕ → Bool → Result Stop ℕ
attached port is_up =
    if is_up
    then ok port
    else err (failed (invalid_state "qemu serial console did not become available"))

-- One round, when the rounds after it fail if the console is not up.
console_round :
    (port rounds : ℕ) (w : World)
    → w.changes ≡ []
    → (w.outside.can_connect port ≡ false → (console_rounds port rounds w).0 ≡ attached port false)
    → (console_rounds port (suc rounds) w).0 ≡ attached port (w.outside.can_connect port)
unfolding console_rounds attached look ◌>>=◌ continue pure raise
console_round port rounds w e later =
    ap
      (λ (v : World).
        ((if v.outside.can_connect port then pure port else console_rounds port rounds) v).0)
      (ap (λ l. pass l w) e)
    ∙ go (w.outside.can_connect port) refl
  where
    go :
        (is_up : Bool)
        → w.outside.can_connect port ≡ is_up
        → ((if is_up then pure port else console_rounds port rounds) w).0 ≡ attached port is_up
    go true h = refl
    go false h = later h

console_rounds-still :
    (port rounds : ℕ) (w : World)
    → w.changes ≡ []
    → (console_rounds port (suc rounds) w).0 ≡ attached port (w.outside.can_connect port)
unfolding console_rounds attached raise
console_rounds-still port zero w e = console_round port zero w e λ h. refl
console_rounds-still port (suc rounds) w e =
    console_round port (suc rounds) w e
      λ h. console_rounds-still port rounds w e ∙ ap (attached port) h

-- When nothing changes any more and the file holds a port: `attach` succeeds with this port exactly
-- when it accepts a connection, and fails with its message otherwise.
pub attach-still :
    (w : World) (text : String) (port : ℕ)
    → w.changes ≡ []
    → w.outside.files "qemu.console-port" ≡ some text
    → parse_unsigned (2 ^ 16) (trim (codes text)) ≡ some port
    → (attach w).0 ≡ (
        if w.outside.can_connect port
        then ok port
        else err (failed (invalid_state "qemu serial console did not become available")))
unfolding attach read_port read_file look ◌>>=◌ continue attached pure
attach-still w text port e f p =
    ap
      (λ (v : World).
        (continue (port_of "console" (v.outside.files "qemu.console-port") v).0
          (λ q. console_rounds q 50)
          (port_of "console" (v.outside.files "qemu.console-port") v).1).0)
      (ap (λ l. pass l w) e)
    ∙ ap
        (λ o.
          (continue (port_of "console" o w).0 (λ q. console_rounds q 50)
            (port_of "console" o w).1).0)
        f
    ∙ ap
        (λ o.
          (continue
            (found o (raise (failed (invalid_state ("invalid " <> "console" <> " port contents"))))
              w).0
            (λ q. console_rounds q 50)
            (found o (raise (failed (invalid_state ("invalid " <> "console" <> " port contents"))))
              w).1).0)
        p
    ∙ console_rounds-still port 49 w e
