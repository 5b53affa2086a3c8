-- ===== src/Server/System/Life.antt =====
-- A build as its reader sees it: it awaits its end, whether it is queued or running, or it is over.
use mirum.Base.{ℕ, String, ◌≡◌, refl, ap, Bool, true, false, Option, none, some, if◌then◌else◌}
use mirum.Server.Types.{Build, GithubPush, Status, running, interrupted}
use mirum.Server.Table.{is_pending, on_row}
use mirum.Server.Lowercase.{to_ascii_lowercase}
use mirum.Server.Webhook.Answers.{IsPush}
use mirum.Server.Build.{Host, build_outcome}

-- What is built: of which repository, and which commit.
pub record Details : Type 0 where
  pub repository : String
  pub clone_url : String
  pub git_ref : String
  pub commit_sha : String

abbrev pub details : Build → Details
details b = record {
  repository = b.repository;
  clone_url = b.clone_url;
  git_ref = b.git_ref;
  commit_sha = b.commit_sha;
}

abbrev pub details_of : GithubPush → Details
details_of push = record {
  repository = push.repository.full_name;
  clone_url = push.repository.clone_url;
  git_ref = push.git_ref;
  commit_sha = to_ascii_lowercase push.after;
}

pub data Life : Type 0 where
  absent : Life
  awaited : Details → Life
  over : Details → Status × Option ℕ × String → Life

abbrev pub life : Option Build → Life
life none = absent
life (some b) =
    if is_pending b.status
    then awaited (details b)
    else over (details b) (b.status, b.exit_code, b.log)

-- How a build may go on: it is created for a push of a commit; it ends with what its own push came to
-- on some machine; or it is interrupted, and has then no exit code and no log.
pub data Advance : Life → Life → Type 0 where
  stays : {l : Life} → Advance l l
  created : (push : GithubPush) → IsPush push → Advance absent (awaited (details_of push))
  built :
      (push : GithubPush) (H : Host)
      → Advance (awaited (details_of push)) (over (details_of push) (build_outcome H push))
  stopped : (d : Details) → Advance (awaited d) (over d (interrupted, none, ""))

pub life-awaited :
    (b : Build) {d : Details}
    → life (some b) ≡ awaited d
    → (is_pending b.status ≡ true) × (details b ≡ d)
life-awaited b {d} = go (is_pending b.status)
  where
    of : {x y : Details} → awaited x ≡ awaited y → x ≡ y
    of h = cc

    go :
        (waits : Bool)
        → (if waits then awaited (details b) else over (details b) (b.status, b.exit_code, b.log))
          ≡ awaited d
        → (waits ≡ true) × (details b ≡ d)
    go true h = (refl, of h)
    go false h = cc

pub running-life :
    (same : Bool) (o : Option Build) {d : Details}
    → life o ≡ awaited d
    → life (if same then on_row (λ b. record b { status = running }) o else o) ≡ awaited d
running-life false o h = h
running-life true none h = h
running-life true (some b) h = ap awaited (life-awaited b h).1
