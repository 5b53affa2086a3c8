-- ===== src/Server/System/Refines.antt =====
-- The server's steps, seen from one build (crates/mirum-server/src/daemon.rs).
use mirum.Base.{
  ℕ, String, ◌≡◌, refl, sym, subst, ap, ◌∙◌, inl, inr, Bool, true, false, Option, none, some,
  Result, ok, err, zero, suc, arith, ◌==◌, if◌then◌else◌,
}
use mirum.Server.Types.{
  Build, GithubPush, Status, queued, running, succeeded, failed, interrupted, Request, Response,
  Crates,
}
use mirum.Server.Table.{
  Table, is_pending, on_row, insert_build, set_running, set_result, initialize_database,
}
use mirum.Server.Webhook.{Job, Insertion, webhook}
use mirum.Server.Webhook.Answers.{IsAnswered, IsPush, webhook-IsAnswered, webhook_iff}
use mirum.Server.Build.{
  Host, outcome_of, build_outcome, execute_build, first_log, start_build, finish_build,
}
use mirum.Server.System.{
  System, boot, receive, Step, received, permitted, begun, ended, restarted, Reach,
}
use mirum.Server.System.Invariant.{Inv, IsSettled}
use mirum.Server.System.Preserved.{Reach-Inv}
use mirum.Server.System.Life.{
  Details, details, details_of, Life, awaited, over, life, Advance, stays, created, built, stopped,
  life-awaited, running-life,
}
use mirum.Server.System.Owned.{IsOurs, OfWorker, Reach-Owned}

advance : {l m l' m' : Life} → l ≡ m → l' ≡ m' → Advance m m' → Advance l l'
advance {l} {m} {l'} {m'} e f a =
    subst (λ (x : Life). Advance x l') (sym e) (subst (λ (x : Life). Advance m x) (sym f) a)

received-Advance :
    (X : Crates) (secret : String) (request : Request) (insertion : Insertion) (s : System)
    → Inv s
    → (id : ℕ)
    → Advance (life (s.table.rows id)) (life ((receive X secret request insertion s).table.rows id))
unfolding receive insert_build
received-Advance X secret request insertion s inv id =
    go (webhook X secret request insertion s.table) refl
      (webhook-IsAnswered X secret request insertion s.table)
  where
    new :
        (push : GithubPush) (b : Build) (same : Bool) (o : Option Build)
        → IsPush push
        → (id == s.table.next) ≡ same
        → s.table.rows id ≡ o
        → life (some b) ≡ awaited (details_of push)
        → Advance (life o) (life (if same then some b else o))
    new push b true none good e f h = advance refl h (created push good)
    new push b true (some a) good e f h = absurd (ground (arith, e, inv.below id a f))
    new push b false o good e f h = stays

    go :
        (answer : Response × Table × Option Job)
        → webhook X secret request insertion s.table ≡ answer
        → IsAnswered X s.table answer
        → Advance (life (s.table.rows id)) (life (answer.1.rows id))
    go (response, t, none) e (inr (push, is), _) =
        advance refl (ap (λ (u : Table). life (u.rows id)) is.rows)
          (new push _ (id == s.table.next) (s.table.rows id) is.good refl refl refl)
    go (response, t, none) e (inl (same, _), _) = advance refl (ap (λ r. life (r id)) same) stays
    go (response, t, some (n, push)) e (_, _, is) =
        let (_, _, good) =
          (webhook_iff X secret request insertion s.table (n, push)).0 (ap (λ a. a.2) e) in
        advance refl (ap (λ (u : Table). life (u.rows id)) is)
          (new push _ (id == s.table.next) (s.table.rows id) good.push_lem refl refl refl)

begun-Advance :
    (s : System) (job : Job) (is_ok : Bool)
    → IsOurs s.table.rows job
    → (id : ℕ) → Advance (life (s.table.rows id)) (life ((start_build is_ok job.0 s.table).rows id))
unfolding start_build set_running
begun-Advance s job true ours id = go (id == job.0) refl
  where
    go :
        (same : Bool)
        → (id == job.0) ≡ same
        → Advance (life (s.table.rows id)) (
            life (
              if same
              then on_row (λ b. record b { status = running }) (s.table.rows id)
              else s.table.rows id))
    go true e =
        let before = ap (λ i. life (s.table.rows i)) (ground (arith, e)) ∙ ours in
        advance before (running-life true (s.table.rows id) before) stays
    go false e = stays
begun-Advance s job false ours id = stays

over-outcome_of :
    (d : Details) (r : Result String ℕ × String) (l : Life)
    → (if is_pending (outcome_of r).0 then l else over d (outcome_of r)) ≡ over d (outcome_of r)
unfolding outcome_of
over-outcome_of d (ok zero, log) l = refl
over-outcome_of d (ok (suc n), log) l = refl
over-outcome_of d (err e, log) l = refl

-- The row of a task that has ended has what its push came to.
pub finished_row :
    (push : GithubPush) (H : Host) (same : Bool) (o : Option Build)
    → same ≡ true
    → life o ≡ awaited (details_of push)
    → life (
        if same
        then on_row
            (λ b. record b {
              status = (build_outcome H push).0;
              exit_code = (build_outcome H push).1;
              log = (build_outcome H push).2;
            })
            o
        else o)
      ≡ over (details_of push) (build_outcome H push)
unfolding build_outcome
finished_row push H true none e h = cc
finished_row push H true (some b) e h =
    over-outcome_of (details b) (execute_build H push (first_log push)) _
    ∙ ap (λ d. over d (outcome_of (execute_build H push (first_log push)))) (life-awaited b h).1
finished_row push H false o e h = cc

ended-Advance :
    (s : System) (job : Job) (H : Host) (is_ok : Bool)
    → IsOurs s.table.rows job
    → (id : ℕ)
    → Advance
        (life (s.table.rows id))
        (life ((finish_build is_ok job.0 (build_outcome H job.1) s.table).rows id))
unfolding finish_build set_result
ended-Advance s job H true ours id = go (id == job.0) refl
  where
    write : Build → Build
    write b = record b {
      status = (build_outcome H job.1).0;
      exit_code = (build_outcome H job.1).1;
      log = (build_outcome H job.1).2;
    }

    go :
        (same : Bool)
        → (id == job.0) ≡ same
        → Advance
            (life (s.table.rows id))
            (life (if same then on_row write (s.table.rows id) else s.table.rows id))
    go true e =
        let before = ap (λ i. life (s.table.rows i)) (ground (arith, e)) ∙ ours in
        advance before (finished_row job.1 H true (s.table.rows id) refl before) (built job.1 H)
    go false e = stays
ended-Advance s job H false ours id = stays

boot-Advance :
    (s : System)
    → Inv s
    → (id : ℕ) → Advance (life (s.table.rows id)) (life ((boot s.table).table.rows id))
unfolding boot initialize_database
boot-Advance s inv id = go (s.table.rows id) refl
  where
    waits :
        (status : Status) (b : Build)
        → is_pending status ≡ true
        → b.status ≡ status
        → (b.exit_code ≡ none) × (b.log ≡ "")
        → Advance (life (some b)) (over (details b) (interrupted, b.exit_code, b.log))
    waits status b p e (no_code, no_log) =
        advance
          (ap
            (λ x.
              if x then awaited (details b) else over (details b) (b.status, b.exit_code, b.log))
            (ap is_pending e ∙ p))
          (ap (λ c. over (details b) (interrupted, c, b.log)) no_code
            ∙ ap (λ l. over (details b) (interrupted, none, l)) no_log)
          (stopped (details b))

    by_status :
        (status : Status) (b : Build)
        → b.status ≡ status
        → IsSettled status b.exit_code b.log
        → Advance
            (life (some b))
            (life (some (if is_pending status then record b { status = interrupted } else b)))
    by_status queued b e h = waits queued b refl e h
    by_status running b e h = waits running b refl e h
    by_status succeeded b e h = stays
    by_status failed b e h = stays
    by_status interrupted b e h = stays

    go :
        (o : Option Build)
        → s.table.rows id ≡ o
        → Advance (life o) (
            life (
              on_row (λ b. if is_pending b.status then record b { status = interrupted } else b) o))
    go none e = stays
    go (some b) e = by_status b.status b refl (inv.builds id b e).settled

module _ (X : Crates) (secret : String) where
  -- In every reachable state, a step of the server advances every build as `Advance` says, or leaves
  -- it: builds do not vanish, their repository and commit stay, and what is over stays as it is.
  pub Step-Advance :
      {s t : System}
      → Reach X secret s
      → Step X secret s t
      → (id : ℕ) → Advance (life (s.table.rows id)) (life (t.table.rows id))
  Step-Advance r (received {s} request insertion) id =
      received-Advance X secret request insertion s (Reach-Inv X secret r) id
  Step-Advance r (permitted before job after w k) id = stays
  Step-Advance r (begun {s} job is_ok k) id =
      begun-Advance s job is_ok
        (subst (OfWorker (IsOurs s.table.rows)) k (Reach-Owned X secret r).worker) id
  Step-Advance r (ended {s} job H is_ok k) id =
      ended-Advance s job H is_ok
        (subst (OfWorker (IsOurs s.table.rows)) k (Reach-Owned X secret r).worker) id
  Step-Advance r (restarted {s}) id = boot-Advance s (Reach-Inv X secret r) id
