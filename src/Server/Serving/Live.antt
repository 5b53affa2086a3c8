-- ===== src/Server/Serving/Live.antt =====
-- The shutdown of crates/mirum-server/src/daemon.rs can come to its end.
use mirum.Base.{
  ℕ, sym, subst, ap, ◌∙◌, Bool, true, ◌∷◌, ◌*◌, ◌+◌, ◌≤◌, ◌*◌, ◌≡◌, refl, ap, ◌∙◌, Bool, false,
  some, List, [], ◌∷◌, ok, arith, length,
}
use mirum.Server.Serving.{
  Task, serving, closing, over, Phase, accepting, joining, cancel_seen, all_joined, finished,
  joined, is_returned, at, Task, waiting, returned, Serving, Event, drained, step, play, is_accept,
  is_deadline, how_many, and_then,
}
use mirum.Server.Serving.Stepped.{one_if}

-- The rest of a run that ends without an error, a new connection or the deadline.
pub record Ends (rounds : ℕ) (s : Serving) : Type 0 where
  pub events : List Event
  pub last : Serving
  pub played : play events s ≡ some last
  pub is_ok : last.phase ≡ returned (ok tt)
  pub quiet : how_many is_accept events ≡ 0
  pub in_time : how_many is_deadline events ≡ 0
  pub short : length events ≤ rounds

waiting-Ends :
    (cs : List Task) (b : Bool)
    → Ends 1 (record { phase = waiting; connections = cs; is_cancelled = b })
unfolding play step how_many
waiting-Ends cs b = record {
  events = drained ∷ [];
  last = record { phase = returned (ok tt); connections = cs; is_cancelled = b };
  played = refl;
  is_ok = refl;
  quiet = refl;
  in_time = refl;
  short = omega arith;
}

-- One event comes first.
first-Ends :
    (rounds : ℕ) (event : Event) (s t : Serving)
    → step event s ≡ some t
    → is_accept event ≡ false
    → is_deadline event ≡ false
    → Ends rounds t
    → Ends (1 + rounds) s
unfolding play how_many
first-Ends rounds event s t h quiet in_time e = record {
  events = event ∷ e.events;
  last = e.last;
  played = ap (λ o. and_then o (play e.events)) h ∙ e.played;
  is_ok = e.is_ok;
  quiet = omega (arith, ap one_if quiet, e.quiet);
  in_time = omega (arith, ap one_if in_time, e.in_time);
  short = omega (arith, e.short);
}

more_rounds : (rounds more : ℕ) (s : Serving) → rounds ≤ more → Ends rounds s → Ends more s
more_rounds rounds more s few e = record {
  events = e.events;
  last = e.last;
  played = e.played;
  is_ok = e.is_ok;
  quiet = e.quiet;
  in_time = e.in_time;
  short = omega (arith, few, e.short);
}

-- A task that is over is joined.
over-Ends :
    {rounds : ℕ} (cs : List Task)
    → Ends rounds (record { phase = joining; connections = cs; is_cancelled = true })
    → Ends (1 + rounds) (record { phase = joining; connections = over ∷ cs; is_cancelled = true })
unfolding step at
over-Ends cs e = first-Ends _ (joined 0) _ _ refl refl refl e

-- The tasks are over, one after the other, and are joined.
joining-Ends :
    (cs : List Task)
    → Ends (2 * length cs + 2) (record { phase = joining; connections = cs; is_cancelled = true })
unfolding step at
joining-Ends [] = first-Ends _ all_joined _ _ refl refl refl (waiting-Ends [] true)
joining-Ends (over ∷ cs) = more_rounds _ _ _ (omega arith) (over-Ends cs (joining-Ends cs))
joining-Ends (serving ∷ cs) =
    more_rounds (1 + (1 + (2 * length cs + 2))) _ _ (omega arith)
      (first-Ends _ (finished 0) _ _ refl refl refl (over-Ends cs (joining-Ends cs)))
joining-Ends (closing ∷ cs) =
    more_rounds (1 + (1 + (2 * length cs + 2))) _ _ (omega arith)
      (first-Ends _ (finished 0) _ _ refl refl refl (over-Ends cs (joining-Ends cs)))

cancelled-Ends :
    (p : Phase) (cs : List Task)
    → is_returned p ≡ false
    → Ends (2 * length cs + 3) (record { phase = p; connections = cs; is_cancelled = true })
unfolding step
cancelled-Ends accepting cs g =
    more_rounds (1 + (2 * length cs + 2)) _ _ (omega arith)
      (first-Ends _ cancel_seen _ _ refl refl refl (joining-Ends cs))
cancelled-Ends joining cs g = more_rounds (2 * length cs + 2) _ _ (omega arith) (joining-Ends cs)
cancelled-Ends waiting cs g = more_rounds 1 _ _ (omega arith) (waiting-Ends cs true)
cancelled-Ends (returned r) cs g = cc

-- From every state after the signal in which the server has not ended, it can end without an error,
-- a new connection or the deadline, in two events for each task and three more at most.
pub signalled-Ends :
    (s : Serving)
    → s.is_cancelled ≡ true
    → is_returned s.phase ≡ false
    → Ends (2 * length s.connections + 3) s
signalled-Ends s c g =
    subst (λ b. Ends (2 * length s.connections + 3) (record s { is_cancelled = b })) (sym c)
      (cancelled-Ends s.phase s.connections g)
