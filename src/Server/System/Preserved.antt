-- ===== src/Server/System/Preserved.antt =====
-- Every step of the running server keeps what holds of its rows and tasks.
use mirum.Base.{
  ℕ, ◌+◌, ◌≤◌, ◌<◌, String, ◌≡◌, refl, sym, subst, ap, ◌∙◌, inl, inr, Bool, true, false, Option,
  none, some, List, ◌∷◌, ◌++◌, arith, ◌==◌, if◌then◌else◌,
}
use mirum.Server.Types.{Build, queued, running, Request, Response, Crates}
use mirum.Server.Table.{
  Table, is_pending, on_row, insert_build, queued_build, set_running, set_result,
  initialize_database,
}
use mirum.Server.Lowercase.{to_ascii_lowercase}
use mirum.Server.Webhook.{Job, Insertion, webhook}
use mirum.Server.Webhook.Answers.{IsAnswered, IsPush, webhook-IsAnswered, webhook_iff}
use mirum.Server.Build.{Host, build_outcome, start_build, finish_build}
use mirum.Server.System.{
  idle, acquired, building, System, boot, spawn, receive, Step, received, permitted, begun, ended,
  restarted, Reach, start, later, one_if, count, held, tasks,
}
use mirum.Server.System.Invariant.{
  Inv, IsBuild, IsCommit-to_ascii_lowercase, pending, pending-IsSettled, outcome_of-IsSettled,
  held-pending, update_row-Inv, boot-Inv, count-append,
}

pub pending-at_most_one : (o : Option Build) → pending o ≤ 1
pending-at_most_one none = omega arith
pending-at_most_one (some b) = ground arith

-- The row of a task is made `running`.
kept :
    (others : ℕ) (same : Bool) (o : Option Build)
    → others + one_if same ≤ pending o
    → others + one_if same
      ≤ pending (if same then on_row (λ b. record b { status = running }) o else o)
kept others true none h = h
kept others true (some b) h = omega (arith, h, pending-at_most_one (some b))
kept others false o h = h

-- The row of a task is changed when the task ends: no other task has it.
released :
    (others : ℕ) (same : Bool) (o o' : Option Build)
    → others + one_if same ≤ pending o
    → others + 0 ≤ pending (if same then o' else o)
released others true o o' h = omega (arith, h, pending-at_most_one o)
released others false o o' h = h

new_row :
    (o : Option Build) (old new : ℕ) (same : Bool)
    → (same ≡ true → pending o ≡ 0)
    → old ≤ pending o
    → (b : Build) → b.status ≡ queued
    → one_if same + old ≤ pending (if same then some b else o)
new_row o old new true fresh h b q =
    omega (arith, h, fresh refl, ap {B = ℕ} (λ x. if is_pending x then 1 else 0) q)
new_row o old new false fresh h b q = omega (arith, h)

unused : {s : System} → Inv s → pending (s.table.rows s.table.next) ≡ 0
unused {s} inv = go (s.table.rows s.table.next) refl
  where
    go : (o : Option Build) → s.table.rows s.table.next ≡ o → pending o ≡ 0
    go none e = refl
    go (some b) e = absurd (omega (arith, inv.below _ b e))

-- The row that the insertion stores.
inserted :
    {s : System} (push : _)
    → Inv s
    → IsPush push
    → Inv (record s {
      table =
          insert_build push.repository.full_name push.repository.clone_url push.git_ref
            (to_ascii_lowercase push.after)
            s.table;
      waiting = (s.table.next, push) ∷ s.waiting;
    })
unfolding insert_build
inserted {s} push inv good = record {
  below = λ i b. below i b (i == s.table.next) refl;
  builds = λ i b. builds i b (i == s.table.next) refl;
  owned = λ i. omega (
    arith,
    new_row (s.table.rows i) (tasks i s) 0 (i == s.table.next)
        (λ h. ap (λ n. pending (s.table.rows n)) (ground (arith, h)) ∙ unused inv) (inv.owned i) row
        refl,
  );
}
  where
    row : Build
    row =
        queued_build push.repository.full_name push.repository.clone_url push.git_ref
          (to_ascii_lowercase push.after)

    below :
        (i : ℕ) (b : Build) (same : Bool)
        → (i == s.table.next) ≡ same
        → (if same then some row else s.table.rows i) ≡ some b
        → i < s.table.next + 1
    below i b true e h = ground (arith, e)
    below i b false e h = omega (arith, inv.below i b h)

    builds :
        (i : ℕ) (b : Build) (same : Bool)
        → (i == s.table.next) ≡ same
        → (if same then some row else s.table.rows i) ≡ some b
        → IsBuild b
    builds i b true e h =
        subst IsBuild (some-of h)
          (record { commit = IsCommit-to_ascii_lowercase good; settled = (refl, refl) })
      where
        some-of : some row ≡ some b → row ≡ b
        some-of k = cc
    builds i b false e h = inv.builds i b h

-- A task is gone.
fewer : {s : System} (job : Job) → Inv (record s { waiting = job ∷ s.waiting }) → Inv s
fewer {s} job inv = record {
  below = inv.below;
  builds = inv.builds;
  owned = λ i. omega (arith, inv.owned i);
}

receive-Inv :
    (X : Crates) (secret : String) (request : Request) (insertion : Insertion) (s : System)
    → Inv s
    → Inv (receive X secret request insertion s)
unfolding receive spawn
receive-Inv X secret request insertion s inv =
    go (webhook X secret request insertion s.table) refl
      (webhook-IsAnswered X secret request insertion s.table)
  where
    go :
        (answer : Response × Table × Option Job)
        → webhook X secret request insertion s.table ≡ answer
        → IsAnswered X s.table answer
        → Inv (record s { table = answer.1; waiting = spawn answer.2 s.waiting })
    go (response, t, none) e (inr (push, is), _) =
        subst (λ (u : Table). Inv (record s { table = u })) (sym is.rows)
          (fewer (s.table.next, push) (inserted push inv is.good))
    go (response, t, none) e (inl (same, more), _) = record {
      below = λ i b h. omega (arith, inv.below i b (ap (λ r. r i) (sym same) ∙ h), more);
      builds = λ i b h. inv.builds i b (ap (λ r. r i) (sym same) ∙ h);
      owned = λ i. omega (arith, inv.owned i, ap (λ r. pending (r i)) same);
    }
    go (response, t, some (id, push)) e (_, new, is) =
        let (_, _, good) =
          (webhook_iff X secret request insertion s.table (id, push)).0 (ap (λ a. a.2) e) in
        subst (λ (u : Table). Inv (record s { table = u; waiting = (id, push) ∷ s.waiting }))
          (sym is)
          (subst
            (λ (n : ℕ). Inv (record s {
              table =
                  insert_build push.repository.full_name push.repository.clone_url push.git_ref
                    (to_ascii_lowercase push.after) s.table;
              waiting = (n, push) ∷ s.waiting;
            }))
            (sym new) (inserted push inv good.push_lem))

-- The task that has the permit, before and after a query on its row.
acquired-Inv :
    {s : System} (before : List Job) (job : Job) (after : List Job)
    → Inv s
    → s.waiting ≡ before ++ job ∷ after
    → s.worker ≡ idle
    → Inv (record s { waiting = before ++ after; worker = acquired job })
acquired-Inv {s} before job after inv w k = record {
  below = inv.below;
  builds = inv.builds;
  owned = λ i. omega (
    arith,
    inv.owned i,
    ap (count i) w,
    count-append i before (job ∷ after),
    count-append i before after,
    ap (held i) k,
  );
}

begun-Inv :
    {s : System} (job : Job) (is_ok : Bool)
    → Inv s
    → s.worker ≡ acquired job
    → Inv (record s { table = start_build is_ok job.0 s.table; worker = building job })
unfolding start_build set_running
begun-Inv {s} job true inv k =
    update_row-Inv job.0 (λ b. record b { status = running }) (building job) inv
      (λ b found good. record {
        commit = good.commit;
        settled =
            pending-IsSettled b.status
              (ground (
                arith,
                sym (ap pending found) ∙ held-pending job inv (ap (held job.0) k ∙ ground arith),
              ))
              good.settled;
      })
      (λ i.
        kept (count i s.waiting) (i == job.0) (s.table.rows i)
          (omega (arith, inv.owned i, ap (held i) k)))
begun-Inv {s} job false inv k = record {
  below = inv.below;
  builds = inv.builds;
  owned = λ i. omega (arith, inv.owned i, ap (held i) k);
}

ended-Inv :
    {s : System} (job : Job) (H : Host) (is_ok : Bool)
    → Inv s
    → s.worker ≡ building job
    → Inv (record s {
      table = finish_build is_ok job.0 (build_outcome H job.1) s.table;
      worker = idle;
    })
unfolding finish_build set_result build_outcome
ended-Inv {s} job H true inv k =
    update_row-Inv job.0 _ idle inv
      (λ b found good. record { commit = good.commit; settled = outcome_of-IsSettled _ })
      (λ i.
        released (count i s.waiting) (i == job.0) (s.table.rows i) _
          (omega (arith, inv.owned i, ap (held i) k)))
ended-Inv {s} job H false inv k = record {
  below = inv.below;
  builds = inv.builds;
  owned = λ i. omega (arith, inv.owned i, ap (held i) k);
}

module _ (X : Crates) (secret : String) where
  pub Step-Inv : {s t : System} → Step X secret s t → Inv s → Inv t
  Step-Inv (received {s} request insertion) inv = receive-Inv X secret request insertion s inv
  Step-Inv (permitted before job after w k) inv = acquired-Inv before job after inv w k
  Step-Inv (begun job is_ok k) inv = begun-Inv job is_ok inv k
  Step-Inv (ended job H is_ok k) inv = ended-Inv job H is_ok inv k
  Step-Inv (restarted {s}) inv = boot-Inv s inv

  -- In every reachable state the ids of the table are below the next one, every build names a commit
  -- in lower case and has the exit code and the log that its status allows, and a build has at most
  -- one task, and none unless it is queued or running.
  pub Reach-Inv : {s : System} → Reach X secret s → Inv s
  unfolding boot initialize_database
  Reach-Inv start = record {
    below = λ id b h. cc;
    builds = λ id b h. cc;
    owned = λ id. omega arith;
  }
  Reach-Inv (later r step) = Step-Inv step (Reach-Inv r)
