-- ===== src/Server/Table.antt =====
-- The table `builds` of crates/mirum-server/src/daemon.rs and the queries on it. An id that the
-- sequence of `BIGSERIAL` has given is not given again, also when the row was not stored.
use mirum.Base.{
  ℕ, zero, suc, ◌+◌, String, Bool, true, false, Option, none, some, List, [], ◌∷◌, take, ◌==◌,
  if◌then◌else◌,
}
use mirum.Server.Types.{Build, Status, queued, running, interrupted}

pub record Table : Type 0 where
  pub rows : ℕ → Option Build
  pub next : ℕ

abbrev pub empty : Table
empty = record { rows = λ id. none; next = 1 }

-- The row with the id, if it is there, is changed.
abbrev pub on_row : (Build → Build) → Option Build → Option Build
on_row f none = none
on_row f (some b) = some (f b)

abbrev pub update_row : ℕ → (Build → Build) → Table → Table
update_row id f t = record t { rows = λ i. if i == id then on_row f (t.rows i) else t.rows i }

-- The row of a push: what is not in the query has its default.
abbrev pub queued_build : String → String → String → String → Build
queued_build repository clone_url git_ref commit_sha = record {
  repository = repository;
  clone_url = clone_url;
  git_ref = git_ref;
  commit_sha = commit_sha;
  status = queued;
  exit_code = none;
  log = "";
}

-- `INSERT INTO builds … VALUES (…, 'queued') RETURNING id`; the id is `t.next`.
unfoldable pub insert_build : String → String → String → String → Table → Table
insert_build repository clone_url git_ref commit_sha t = record {
  rows = λ i.
      if i == t.next then some (queued_build repository clone_url git_ref commit_sha) else t.rows i;
  next = t.next + 1;
}

-- `UPDATE builds SET status = 'running' WHERE id = $1`
unfoldable pub set_running : ℕ → Table → Table
set_running id t = update_row id (λ b. record b { status = running }) t

-- `UPDATE builds SET status = $2, exit_code = $3, log = $4 WHERE id = $1`
unfoldable pub set_result : ℕ → Status → Option ℕ → String → Table → Table
set_result id status exit_code log t =
    update_row id (λ b. record b { status = status; exit_code = exit_code; log = log }) t

abbrev pub is_pending : Status → Bool
is_pending queued = true
is_pending running = true
is_pending _ = false

abbrev interrupt : Build → Build
interrupt b = if is_pending b.status then record b { status = interrupted } else b

-- `initialize_database` of a table that is there: `UPDATE builds SET status = 'interrupted' WHERE
-- status IN ('queued', 'running')`.
unfoldable pub initialize_database : Table → Table
initialize_database t = record t { rows = λ i. on_row interrupt (t.rows i) }

-- The ids below `n` from the last on, of the rows that are there.
unfoldable pub rows_below : ℕ → Table → List (ℕ × Build)
rows_below zero t = []
rows_below (suc n) t = elim (t.rows n) [ none ↦ rows_below n t | some b ↦ (n, b) ∷ rows_below n t ]

-- `SELECT … FROM builds ORDER BY id DESC LIMIT 100`
unfoldable pub recent_builds : Table → List (ℕ × Build)
recent_builds t = take 100 (rows_below t.next t)
