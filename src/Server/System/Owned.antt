-- ===== src/Server/System/Owned.antt =====
-- The tasks of the running server have each the build of their own push, in every reachable state.
use mirum.Base.{
  All, All-append, All-split, ℕ, ◌≤◌, String, ◌≡◌, refl, sym, subst, ap, inl, inr, Bool, true,
  false, Option, none, some, List, [], ◌∷◌, ◌++◌, arith, ◌==◌, if◌then◌else◌,
}
use mirum.Server.Types.{Build, GithubPush, Request, Response, Crates}
use mirum.Server.Table.{Table, on_row, insert_build, queued_build, set_running, set_result}
use mirum.Server.Lowercase.{to_ascii_lowercase}
use mirum.Server.Webhook.{Job, Insertion, webhook}
use mirum.Server.Webhook.Answers.{IsAnswered, webhook-IsAnswered}
use mirum.Server.Build.{Host, build_outcome, start_build, finish_build}
use mirum.Server.System.{
  Worker, idle, acquired, building, System, boot, spawn, receive, Step, received, permitted, begun,
  ended, restarted, Reach, start, later, one_if, count, held,
}
use mirum.Server.System.Invariant.{Inv}
use mirum.Server.System.Preserved.{Reach-Inv, pending-at_most_one}
use mirum.Server.System.Life.{details_of, awaited, life, running-life}

abbrev pub OfWorker : (Job → Type 0) → Worker → Type 0
OfWorker P idle = Unit {0}
OfWorker P (acquired job) = P job
OfWorker P (building job) = P job

abbrev pub IsOurs : (ℕ → Option Build) → Job → Type 0
IsOurs rows job = life (rows job.0) ≡ awaited (details_of job.1)

-- All task has the build of its own push.
pub record Owned (s : System) : Type 0 where
  pub waiting : All (IsOurs s.table.rows) s.waiting
  pub worker : OfWorker (IsOurs s.table.rows) s.worker

All-map :
    {P Q : Job → Type 0} (l : List Job)
    → ((job : Job) → 1 ≤ count job.0 l → P job → Q job)
    → All P l
    → All Q l
All-map [] f h = tt
All-map (job ∷ l) f h = (f job (ground arith) h.0, All-map l (λ j k. f j (omega (arith, k))) h.1)

OfWorker-map :
    {P Q : Job → Type 0} (w : Worker)
    → ((job : Job) → 1 ≤ held job.0 w → P job → Q job)
    → OfWorker P w
    → OfWorker Q w
OfWorker-map idle f h = tt
OfWorker-map (acquired job) f h = f job (ground arith) h
OfWorker-map (building job) f h = f job (ground arith) h

-- A row that is stored under a new id is no task's.
insert_build-Owned :
    {s : System} (push : GithubPush)
    → Inv s
    → Owned s
    → Owned (record s {
      table =
          insert_build push.repository.full_name push.repository.clone_url push.git_ref
            (to_ascii_lowercase push.after)
            s.table;
      waiting = (s.table.next, push) ∷ s.waiting;
    })
unfolding insert_build
insert_build-Owned {s} push inv own = record {
  waiting = (
    ap (λ x. life (if x then some row else s.table.rows s.table.next)) same_id,
    All-map s.waiting (λ j c h. other j (j.0 == s.table.next) (s.table.rows j.0) refl refl h)
        own.waiting,
  );
  worker =
      OfWorker-map s.worker (λ j c h. other j (j.0 == s.table.next) (s.table.rows j.0) refl refl h)
        own.worker;
}
  where
    row : Build
    row =
        queued_build push.repository.full_name push.repository.clone_url push.git_ref
          (to_ascii_lowercase push.after)

    same_id : (s.table.next == s.table.next) ≡ true
    same_id = ground arith

    other :
        (j : Job) (same : Bool) (o : Option Build)
        → (j.0 == s.table.next) ≡ same
        → s.table.rows j.0 ≡ o
        → life o ≡ awaited (details_of j.1)
        → life (if same then some row else o) ≡ awaited (details_of j.1)
    other j true none e f h = cc
    other j true (some b) e f h = absurd (ground (arith, e, inv.below j.0 b f))
    other j false o e f h = h

receive-Owned :
    (X : Crates) (secret : String) (request : Request) (insertion : Insertion) (s : System)
    → Inv s
    → Owned s
    → Owned (receive X secret request insertion s)
unfolding receive spawn
receive-Owned X secret request insertion s inv own =
    go (webhook X secret request insertion s.table)
      (webhook-IsAnswered X secret request insertion s.table)
  where
    go :
        (answer : Response × Table × Option Job)
        → IsAnswered X s.table answer
        → Owned (record s { table = answer.1; waiting = spawn answer.2 s.waiting })
    go (response, t, none) (inr (push, is), _) =
        let own' = insert_build-Owned push inv own in
        subst (λ (u : Table). Owned (record s { table = u })) (sym is.rows)
          (record { waiting = own'.waiting.1; worker = own'.worker })
    go (response, t, none) (inl (same, more), _) = record {
      waiting = subst (λ (r : ℕ → Option Build). All (IsOurs r) s.waiting) (sym same) own.waiting;
      worker = subst (λ (r : ℕ → Option Build). OfWorker (IsOurs r) s.worker) (sym same) own.worker;
    }
    go (response, t, some (id, push)) (_, new, is) =
        subst (λ (u : Table). Owned (record s { table = u; waiting = (id, push) ∷ s.waiting }))
          (sym is)
          (subst
            (λ (n : ℕ). Owned (record s {
              table =
                  insert_build push.repository.full_name push.repository.clone_url push.git_ref
                    (to_ascii_lowercase push.after) s.table;
              waiting = (n, push) ∷ s.waiting;
            }))
            (sym new) (insert_build-Owned push inv own))

acquired-Owned :
    {s : System} (before : List Job) (job : Job) (after : List Job)
    → Owned s
    → s.waiting ≡ before ++ job ∷ after
    → Owned (record s { waiting = before ++ after; worker = acquired job })
acquired-Owned {s} before job after own w =
    let (first, rest) =
      All-split _ before (job ∷ after) (subst (All (IsOurs s.table.rows)) w own.waiting) in
    record { waiting = All-append _ before after first rest.1; worker = rest.0 }

begun-Owned :
    {s : System} (job : Job) (is_ok : Bool)
    → Owned s
    → s.worker ≡ acquired job
    → Owned (record s { table = start_build is_ok job.0 s.table; worker = building job })
unfolding start_build set_running
begun-Owned {s} job true own k = record {
  waiting =
      All-map s.waiting (λ j c h. running-life (j.0 == job.0) (s.table.rows j.0) h) own.waiting;
  worker =
      running-life (job.0 == job.0) (s.table.rows job.0)
        (subst (OfWorker (IsOurs s.table.rows)) k own.worker);
}
begun-Owned {s} job false own k = record {
  waiting = own.waiting;
  worker = subst (OfWorker (IsOurs s.table.rows)) k own.worker;
}

ended-Owned :
    {s : System} (job : Job) (H : Host) (is_ok : Bool)
    → Inv s
    → Owned s
    → s.worker ≡ building job
    → Owned (record s {
      table = finish_build is_ok job.0 (build_outcome H job.1) s.table;
      worker = idle;
    })
unfolding finish_build set_result
ended-Owned {s} job H true inv own k = record {
  waiting = All-map s.waiting (λ j c h. other _ j c h (j.0 == job.0) refl) own.waiting;
  worker = tt;
}
  where
    other :
        (f : Build → Build) (j : Job)
        → 1 ≤ count j.0 s.waiting
        → IsOurs s.table.rows j
        → (same : Bool) → (j.0 == job.0) ≡ same
        → life (if same then on_row f (s.table.rows j.0) else s.table.rows j.0)
          ≡ awaited (details_of j.1)
    other f j c h true e = absurd (
        omega (
          arith,
          c,
          inv.owned j.0,
          pending-at_most_one (s.table.rows j.0),
          ap (held j.0) k,
          ap one_if e,
        ))
    other f j c h false e = h
ended-Owned {s} job H false inv own k = record { waiting = own.waiting; worker = tt }

module _ (X : Crates) (secret : String) where
  pub Reach-Owned : {s : System} → Reach X secret s → Owned s
  unfolding boot
  Reach-Owned start = record { waiting = tt; worker = tt }
  Reach-Owned (later r step) = go step (Reach-Inv X secret r) (Reach-Owned r)
    where
      go : {s t : System} → Step X secret s t → Inv s → Owned s → Owned t
      go (received {s} request insertion) inv own =
          receive-Owned X secret request insertion s inv own
      go (permitted before job after w k) inv own = acquired-Owned before job after own w
      go (begun job is_ok k) inv own = begun-Owned job is_ok own k
      go (ended job H is_ok k) inv own = ended-Owned job H is_ok inv own k
      go (restarted {s}) inv own = record { waiting = tt; worker = tt }
