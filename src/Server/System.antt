-- ===== src/Server/System.antt =====
-- The running server of crates/mirum-server/src/daemon.rs: `AppState`, the tasks that `webhook` has
-- spawned, the one permit of `worker`, and the table. The tasks that wait for the permit get it in
-- any order; a task that has it runs `run_build`, whose queries come between the other steps.
pub mod Invariant
pub mod Preserved
pub mod Life
pub mod Owned
pub mod Refines
pub mod Ends
use mirum.Base.{
  ℕ, zero, suc, ◌+◌, String, ◌≡◌, Bool, Option, none, some, List, [], ◌∷◌, ◌++◌, ◌==◌,
  if◌then◌else◌,
}
use mirum.Server.Types.{Request, Crates}
use mirum.Server.Table.{Table, empty, initialize_database}
use mirum.Server.Webhook.{Job, Insertion, webhook}
use mirum.Server.Build.{Host, build_outcome, start_build, finish_build}

-- Who has the permit: no task, or one before or after the first query of `run_build`.
pub data Worker : Type 0 where
  idle : Worker
  acquired : Job → Worker
  building : Job → Worker

pub record System : Type 0 where
  pub table : Table
  pub waiting : List Job
  pub worker : Worker

-- The process starts: no task is left of an earlier one.
unfoldable pub boot : Table → System
boot t = record { table = initialize_database t; waiting = []; worker = idle }

-- `tokio::spawn`
unfoldable pub spawn : Option Job → List Job → List Job
spawn none l = l
spawn (some job) l = job ∷ l

unfoldable pub receive : Crates → String → Request → Insertion → System → System
receive X secret request insertion s =
    let (response, t, job) = webhook X secret request insertion s.table in
    record s { table = t; waiting = spawn job s.waiting }

module _ (X : Crates) (secret : String) where
  -- The steps of one process, and its end and the start of the next one.
  pub data Step : System → System → Type 0 where
    received :
        {s : System} (request : Request) (insertion : Insertion)
        → Step s (receive X secret request insertion s)
    permitted :
        {s : System} (before : List Job) (job : Job) (after : List Job)
        → s.waiting ≡ before ++ job ∷ after
        → s.worker ≡ idle
        → Step s (record s { waiting = before ++ after; worker = acquired job })
    begun :
        {s : System} (job : Job) (is_ok : Bool)
        → s.worker ≡ acquired job
        → Step s (record s { table = start_build is_ok job.0 s.table; worker = building job })
    ended :
        {s : System} (job : Job) (H : Host) (is_ok : Bool)
        → s.worker ≡ building job
        → Step s (record s {
          table = finish_build is_ok job.0 (build_outcome H job.1) s.table;
          worker = idle;
        })
    restarted : {s : System} → Step s (boot s.table)

  pub data Reach : System → Type 0 where
    start : Reach (boot empty)
    later : {s t : System} → Reach s → Step s t → Reach t

abbrev pub one_if : Bool → ℕ
one_if b = if b then 1 else 0

-- How many tasks have a build.
abbrev pub count : ℕ → List Job → ℕ
count id [] = 0
count id (job ∷ l) = one_if (id == job.0) + count id l

abbrev pub held : ℕ → Worker → ℕ
held id idle = 0
held id (acquired job) = one_if (id == job.0)
held id (building job) = one_if (id == job.0)

abbrev pub tasks : ℕ → System → ℕ
tasks id s = count id s.waiting + held id s.worker
