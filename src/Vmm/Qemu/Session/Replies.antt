-- ===== src/Vmm/Qemu/Session/Replies.antt =====
-- Every command of a session gets its own reply (crates/mirum-vm-vmm/src/backend/qemu/qmp.rs).
use mathlib.Core.List.{append_assoc, append-nil}
use mirum.Base.{
  String, ◌≡◌, sym, ap, ◌∙◌, true, false, none, some, List, [], ◌∷◌, ◌++◌, map, All, ok,
}
use mirum.Base.Exec.{Exec, pure, lift, continue, ◌>>=◌, ◌>>◌}
use mirum.Hmi.Json.{Json}
use mirum.Vmm.Types.{Error}
use mirum.Vmm.Qemu.Qmp.{Wire, is_skipped, read_message-skipped, response}
use mirum.Vmm.Qemu.Session.{Request, Session, write, receive, in_session, execute, connect}

module _ (J : Json) (W : Wire J) where
  open J use {Value, get}

  -- What qemu sends for a command: blank lines and events, and then a message with a result.
  pub record Reply : Type 0 where
    pub noise : List String
    pub line : String
    pub value : Value
    pub result : Value

  -- The message comes after what is skipped.
  pub record IsMessage (r : Reply) : Type 0 where
    pub skipped : All (λ l. is_skipped J W l ≡ true) r.noise
    pub kept : is_skipped J W r.line ≡ false
    pub parsed : W.from_str r.line ≡ some r.value

  pub record IsReply (r : Reply) : Type 0 where
    pub message : IsMessage r
    pub no_error : get r.value "error" ≡ none
    pub returned : get r.value "return" ≡ some r.result

  abbrev pub lines_of : List Reply → List String → List String
  lines_of [] rest = rest
  lines_of (r ∷ rs) rest = r.noise ++ r.line ∷ lines_of rs rest

  -- The commands are executed one after the other.
  unfoldable pub converse : List Request → Exec Session Error (List Value)
  converse [] = pure []
  converse (request ∷ requests) =
      let later = converse requests in
      do result ← execute J W request; results ← later; pure (result ∷ results)

  receive-message :
      (r : Reply) (rest : List String) (sent : List Request)
      → IsMessage r
      → receive J W (record { incoming = r.noise ++ r.line ∷ rest; sent = sent; writes = [] })
        ≡ (ok r.value, record { incoming = rest; sent = sent; writes = [] })
  unfolding receive
  receive-message r rest sent m =
      ap (in_session J W (record { incoming = rest; sent = sent; writes = [] }))
        (read_message-skipped J W r.noise r.line rest r.value m.skipped m.kept m.parsed)

  response-result :
      (command : String) (r : Reply)
      → IsReply r
      → response J W command r.value (get r.value "error") (get r.value "return") ≡ ok r.result
  unfolding response
  response-result command r i =
      ap (λ e. response J W command r.value e (get r.value "return")) i.no_error
      ∙ ap (response J W command r.value none) i.returned

  execute-reply :
      (request : Request) (r : Reply) (rest : List String) (sent : List Request)
      → IsReply r
      → execute J W request
          (record { incoming = r.noise ++ r.line ∷ rest; sent = sent; writes = [] })
        ≡ (ok r.result, record { incoming = rest; sent = sent ++ request ∷ []; writes = [] })
  unfolding execute write ◌>>=◌ continue lift
  execute-reply request r rest sent i =
      ap
        (λ p.
          continue p.0
            (λ value.
              lift (response J W request.execute value (get value "error") (get value "return")))
            p.1)
        (receive-message r rest (sent ++ request ∷ []) i.message)
      ∙ ap (λ o. (o, record { incoming = rest; sent = sent ++ request ∷ []; writes = [] }))
          (response-result request.execute r i)

  abbrev pub pairs_requests : List (Request × Reply) → List Request
  pairs_requests ps = map (λ p. p.0) ps

  abbrev pub pairs_replies : List (Request × Reply) → List Reply
  pairs_replies ps = map (λ p. p.1) ps

  abbrev pub results : List (Request × Reply) → List Value
  results ps = map (λ p. p.1.result) ps

  converse-replies :
      (ps : List (Request × Reply)) (rest : List String) (sent : List Request)
      → All (λ p. IsReply p.1) ps
      → converse
          (pairs_requests ps)
          (record { incoming = lines_of (pairs_replies ps) rest; sent = sent; writes = [] })
        ≡ (
          ok (results ps),
          record { incoming = rest; sent = sent ++ pairs_requests ps; writes = [] },
        )
  unfolding converse pure ◌>>=◌ continue
  converse-replies [] rest sent a =
      ap (λ l. (ok [], record { incoming = rest; sent = l; writes = [] })) (sym (append-nil sent))
  converse-replies ((request, r) ∷ ps) rest sent a =
      ap
        (λ p.
          continue p.0 (λ result. converse (pairs_requests ps) >>= λ later. pure (result ∷ later))
            p.1)
        (execute-reply request r (lines_of (pairs_replies ps) rest) sent a.0)
      ∙ ap (λ p. continue p.0 (λ later. pure (r.result ∷ later)) p.1)
          (converse-replies ps rest (sent ++ request ∷ []) a.1)
      ∙ ap (λ l. (ok (r.result ∷ results ps), record { incoming = rest; sent = l; writes = [] }))
          (append_assoc sent (request ∷ []) (pairs_requests ps))

  -- A session in which qemu greets, and answers the handshake and then each command with a result,
  -- whatever blank lines and events come between: the handshake is written first, then the commands in
  -- their order, each gets the result of its own reply, and what comes after them is left to be read.
  pub session-replies :
      (greeting first : Reply) (ps : List (Request × Reply)) (rest : List String)
      → IsMessage greeting
      → IsReply first
      → All (λ p. IsReply p.1) ps
      → (connect J W >> converse (pairs_requests ps)) (record {
        incoming = lines_of (greeting ∷ first ∷ pairs_replies ps) rest;
        sent = [];
        writes = [];
      })
        ≡ (
          ok (results ps),
          record {
            incoming = rest;
            sent = record { execute = "qmp_capabilities"; value = none } ∷ pairs_requests ps;
            writes = [];
          },
        )
  unfolding connect pure ◌>>=◌ continue
  session-replies greeting first ps rest g i a =
      ap
        (λ p.
          continue
            (continue p.0
              (λ value. execute J W (record { execute = "qmp_capabilities"; value = none }) >>= λ v.
                pure tt)
              p.1).0
            (λ u. converse (pairs_requests ps))
            (continue p.0
              (λ value. execute J W (record { execute = "qmp_capabilities"; value = none }) >>= λ v.
                pure tt)
              p.1).1)
        (receive-message greeting (lines_of (first ∷ pairs_replies ps) rest) [] g)
      ∙ ap
          (λ p.
            continue (continue p.0 (λ v. pure tt) p.1).0 (λ u. converse (pairs_requests ps))
              (continue p.0 (λ v. pure tt) p.1).1)
          (execute-reply _ first (lines_of (pairs_replies ps) rest) [] i)
      ∙ converse-replies ps rest _ a
