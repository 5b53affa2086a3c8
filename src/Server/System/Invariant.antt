-- ===== src/Server/System/Invariant.antt =====
-- What holds of every row and of every task of the running server.
use mirum.Base.{
  ℕ, zero, suc, ◌+◌, ◌≤◌, ◌<◌, String, ◌≡◌, ◌≢◌, refl, sym, subst, ap, ◌∙◌, ◌⊎◌, Bool, true, false,
  Option, none, some, List, [], ◌∷◌, ◌++◌, arith, all, length, ◌==◌, if◌then◌else◌, Result, ok, err,
}
use mirum.Base.Text.{codes}
use mirum.Server.Types.{Build, Status, queued, running, succeeded, failed, interrupted}
use mirum.Server.Table.{update_row, is_pending, on_row, initialize_database}
use mirum.Server.Lowercase.{
  is_lower_hexdigit, to_ascii_lowercase, to_ascii_lowercase-hexdigit, length-to_ascii_lowercase,
}
use mirum.Server.Webhook.{Job}
use mirum.Server.Webhook.Answers.{IsPush}
use mirum.Server.Build.{outcome_of}
use mirum.Server.System.{Worker, System, boot, count, held, tasks}

-- The text of a commit's id, in lower case.
pub record IsCommit (sha : String) : Type 0 where
  pub length_lem : (length (codes sha) ≡ 40) ⊎ (length (codes sha) ≡ 64)
  pub digits : all is_lower_hexdigit (codes sha) ≡ true

-- A build that has not ended, or did not come to its end, has no exit code and no log; one that
-- succeeded has the exit code 0, and one that failed has another one, or none.
abbrev pub IsSettled : Status → Option ℕ → String → Type 0
IsSettled succeeded exit_code log = exit_code ≡ some 0
IsSettled failed exit_code log = exit_code ≢ some 0
IsSettled _ exit_code log = (exit_code ≡ none) × (log ≡ "")

pub record IsBuild (b : Build) : Type 0 where
  pub commit : IsCommit b.commit_sha
  pub settled : IsSettled b.status b.exit_code b.log

abbrev pub pending : Option Build → ℕ
pending none = 0
pending (some b) = if is_pending b.status then 1 else 0

pub record Inv (s : System) : Type 0 where
  pub below : (id : ℕ) (b : Build) → s.table.rows id ≡ some b → id < s.table.next
  pub builds : (id : ℕ) (b : Build) → s.table.rows id ≡ some b → IsBuild b
  -- A build has at most one task, and none when it is over.
  pub owned : (id : ℕ) → tasks id s ≤ pending (s.table.rows id)

pub IsCommit-to_ascii_lowercase :
    {push : _} → IsPush push → IsCommit (to_ascii_lowercase push.after)
IsCommit-to_ascii_lowercase {push} good = record {
  length_lem = ground (arith, good.length_lem, length-to_ascii_lowercase push.after);
  digits = to_ascii_lowercase-hexdigit push.after good.digits;
}

pub outcome_of-IsSettled :
    (r : Result String ℕ × String) → IsSettled (outcome_of r).0 (outcome_of r).1 (outcome_of r).2
unfolding outcome_of
outcome_of-IsSettled (ok zero, log) = refl
outcome_of-IsSettled (ok (suc n), log) = λ h. cc
outcome_of-IsSettled (err e, log) = λ h. cc

pub pending-IsSettled :
    (status : Status) {exit_code : Option ℕ} {log : String}
    → is_pending status ≡ true
    → IsSettled status exit_code log
    → (exit_code ≡ none) × (log ≡ "")
pending-IsSettled queued p h = h
pending-IsSettled running p h = h
pending-IsSettled succeeded p h = cc
pending-IsSettled failed p h = cc
pending-IsSettled interrupted p h = cc

on_row-eq-some :
    (f : Build → Build) (o : Option Build) {b : Build}
    → on_row f o ≡ some b
    → (a : Build) × (o ≡ some a) × (f a ≡ b)
on_row-eq-some f none h = cc
on_row-eq-some f (some a) h = (a, refl, some-of h)
  where
    some-of : {x y : Build} → some x ≡ some y → x ≡ y
    some-of k = cc

pub count-append : (id : ℕ) (l l' : List Job) → count id (l ++ l') ≡ count id l + count id l'
count-append id [] l' = omega arith
count-append id (job ∷ l) l' = omega (arith, count-append id l l')

-- The task that has the permit has a row, which is pending.
pub held-pending :
    {s : System} (job : Job) → Inv s → held job.0 s.worker ≡ 1 → pending (s.table.rows job.0) ≡ 1
held-pending {s} job inv h = go (s.table.rows job.0) (inv.owned job.0)
  where
    go :
        (o : Option Build) → count job.0 s.waiting + held job.0 s.worker ≤ pending o → pending o ≡ 1
    go none k = absurd (omega (arith, h, k))
    go (some b) k = ground (arith, h, k)

-- One row is changed, and the task that has the permit.
pub update_row-Inv :
    {s : System} (id : ℕ) (f : Build → Build) (worker : Worker)
    → Inv s
    → ((b : Build) → s.table.rows id ≡ some b → IsBuild b → IsBuild (f b))
    → ((i : ℕ)
        → count i s.waiting + held i worker
          ≤ pending (if i == id then on_row f (s.table.rows i) else s.table.rows i))
    → Inv (record s { table = update_row id f s.table; worker = worker })
update_row-Inv {s} id f worker inv good few = record {
  below = λ i b. below i b (i == id) refl;
  builds = λ i b. builds i b (i == id) refl;
  owned = few;
}
  where
    below :
        (i : ℕ) (b : Build) (same : Bool)
        → (i == id) ≡ same
        → (if same then on_row f (s.table.rows i) else s.table.rows i) ≡ some b
        → i < s.table.next
    below i b true e h =
        let (a, found, _) = on_row-eq-some f (s.table.rows i) h in inv.below i a found
    below i b false e h = inv.below i b h

    builds :
        (i : ℕ) (b : Build) (same : Bool)
        → (i == id) ≡ same
        → (if same then on_row f (s.table.rows i) else s.table.rows i) ≡ some b
        → IsBuild b
    builds i b true e h =
        let (a, found, is) = on_row-eq-some f (s.table.rows i) h in
        subst IsBuild is
          (good a (ap s.table.rows (sym (ground (arith, e))) ∙ found) (inv.builds i a found))
    builds i b false e h = inv.builds i b h

pub boot-Inv : (s : System) → Inv s → Inv (boot s.table)
unfolding boot initialize_database
boot-Inv s inv = record {
  below = λ i b h. let (a, found, _) = on_row-eq-some _ (s.table.rows i) h in inv.below i a found;
  builds = λ i b h.
      let (a, found, is) = on_row-eq-some _ (s.table.rows i) h in
      subst IsBuild is (interrupt-IsBuild a (inv.builds i a found));
  owned = λ i. omega arith;
}
  where
    go :
        (status : Status) (a : Build)
        → a.status ≡ status
        → IsBuild a
        → IsBuild (if is_pending status then record a { status = interrupted } else a)
    go queued a e good = record {
      commit = good.commit;
      settled = subst (λ x. IsSettled x a.exit_code a.log) e good.settled;
    }
    go running a e good = record {
      commit = good.commit;
      settled = subst (λ x. IsSettled x a.exit_code a.log) e good.settled;
    }
    go succeeded a e good = good
    go failed a e good = good
    go interrupted a e good = good

    interrupt-IsBuild :
        (a : Build)
        → IsBuild a
        → IsBuild (if is_pending a.status then record a { status = interrupted } else a)
    interrupt-IsBuild a good = go a.status a refl good
