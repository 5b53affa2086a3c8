-- ===== src/Server/Webhook/Answers.antt =====
-- Which requests queue a build, and what the table has then (crates/mirum-server/src/daemon.rs).
use mirum.Base.{
  String, ◌≡◌, ◌≢◌, ◌⊎◌, inl, inr, refl, sym, subst, ap, ◌∙◌, ◌≤◌, ◌↔◌, Bool, true, false, not,
  Option, none, some, arith, eq_iff, if◌then◌else◌,
}
use mirum.Server.Types.{GithubPush, Request, Response, Crates}
use mirum.Server.Table.{Table, insert_build}
use mirum.Server.Lowercase.{to_ascii_lowercase}
use mirum.Server.Webhook.{
  Insertion, stored, refused, burnt, lost, Job, is_deletion, is_event, is_good_push,
  verify_signature, unwrap_or_default, webhook, handle_push, queue_build, accepted, text_response,
  no_content,
}
pub use mirum.Server.Webhook.Accepts.{IsPush}
use mirum.Server.Webhook.Accepts.{is_good_push_iff, IsSigned, verify_signature_iff}

module _ (X : Crates) where
  -- A signed push of a commit.
  pub record IsAccepted (secret : String) (request : Request) (push : GithubPush) : Type 0 where
    pub signed : IsSigned X secret request
    pub event : request.header "x-github-event" ≡ some "push"
    pub parsed : X.parse_push request.body ≡ some push
    pub push_lem : IsPush push

  is_event_iff : (o : Option String) → (is_event o ≡ true) ↔ (o ≡ some "push")
  is_event_iff none = (λ h. cc, λ h. cc)
  is_event_iff (some event) = ground (arith, eq_iff event "push")

  -- The row of the push is inserted.
  pub record IsInserted (push : GithubPush) (t t' : Table) : Type 0 where
    pub good : IsPush push
    pub rows :
        t'
        ≡ insert_build push.repository.full_name push.repository.clone_url push.git_ref
            (to_ascii_lowercase push.after)
            t

  -- What the handler leaves: a build that is queued under a new id, or no task; then the rows are as
  -- they were, or the insertion's answer was lost.
  abbrev pub IsAnswered : Table → Response × Table × Option Job → Type 0
  IsAnswered t (response, t', none) =
      (((t'.rows ≡ t.rows) × (t.next ≤ t'.next)) ⊎ ((push : GithubPush) × IsInserted push t t'))
      × (response.status ≢ 202)
  IsAnswered t (response, t', some (id, push)) =
      (response ≡ accepted id)
      × (id ≡ t.next)
      × (t'
          ≡ insert_build push.repository.full_name push.repository.clone_url push.git_ref
              (to_ascii_lowercase push.after) t)

  handle_push_iff :
      (o : Option GithubPush) (insertion : Insertion) (t : Table) (job : Job)
      → ((handle_push X o insertion t).2 ≡ some job)
        ↔ ((insertion ≡ stored) × (job.0 ≡ t.next) × (o ≡ some job.1) × IsPush job.1)
  handle_push_iff none insertion t job = (λ h. cc, λ h. cc)
  handle_push_iff (some push) insertion t job =
      (to (is_deletion push.after) (is_good_push push) refl refl insertion, from)
    where
      to :
          (d g : Bool)
          → is_deletion push.after ≡ d
          → is_good_push push ≡ g
          → (insertion : Insertion)
          → (if d
              then (no_content, t, none)
              else if not g
              then (text_response 400 "invalid push\n", t, none)
              else queue_build X push insertion t).2
            ≡ some job
          → (insertion ≡ stored) × (job.0 ≡ t.next) × (some push ≡ some job.1) × IsPush job.1
      to true g e f i h = cc
      to false false e f i h = cc
      to false true e f stored h =
          let same = some-of h in
          (
            refl,
            sym (ap (λ j. j.0) same),
            ap (λ j. some j.1) same,
            subst (λ j. IsPush j.1) same ((is_good_push_iff push).0 (e, f)),
          )
        where
          some-of : ◌≡◌ {A = Option Job} (some (t.next, push)) (some job) → (t.next, push) ≡ job
          some-of k = cc
      to false true e f refused h = cc
      to false true e f burnt h = cc
      to false true e f lost h = cc

      from :
          (insertion ≡ stored) × (job.0 ≡ t.next) × (some push ≡ some job.1) × IsPush job.1
          → (handle_push X (some push) insertion t).2 ≡ some job
      from (i, n, p, good) =
          let good_push = (is_good_push_iff push).1 (subst IsPush (sym (some-of p)) good) in
          ap
            (λ b.
              (if b
                then (no_content, t, none)
                else if not (is_good_push push)
                then (text_response 400 "invalid push\n", t, none)
                else queue_build X push insertion t).2)
            good_push.0
          ∙ ap
              (λ b.
                (if not b
                  then (text_response 400 "invalid push\n", t, none)
                  else queue_build X push insertion t).2)
              good_push.1
          ∙ ap (λ j. (queue_build X push j t).2) i
          ∙ cc (n, p)
        where
          some-of : some push ≡ some job.1 → push ≡ job.1
          some-of k = cc

  -- Whatever the request is, the handler either queues a job: then it answers 202 with the path of the
  -- new id, which is the next one of the table, and has inserted the row of the push of the job, its
  -- commit in lower case; or it queues none: then the answer is not 202, and no row has changed, or
  -- only the row of a push of a commit was inserted.
  pub webhook-IsAnswered :
      (secret : String) (request : Request) (insertion : Insertion) (t : Table)
      → IsAnswered t (webhook X secret request insertion t)
  unfolding webhook accepted text_response no_content
  webhook-IsAnswered secret request insertion t =
      go (verify_signature X secret _ request.body) (is_event (request.header "x-github-event"))
        (X.parse_push request.body)
    where
      pushed :
          (push : GithubPush) (d g : Bool) (insertion : Insertion)
          → is_deletion push.after ≡ d
          → is_good_push push ≡ g
          → IsAnswered t (
              if d
              then (no_content, t, none)
              else if not g
              then (text_response 400 "invalid push\n", t, none)
              else queue_build X push insertion t)
      pushed push true g insertion e f = (inl (refl, omega arith), omega arith)
      pushed push false false insertion e f = (inl (refl, omega arith), omega arith)
      pushed push false true stored e f = (refl, refl, refl)
      pushed push false true refused e f = (inl (refl, omega arith), omega arith)
      pushed push false true burnt e f = (inl (refl, omega arith), omega arith)
      pushed push false true lost e f =
          (inr (push, record { good = (is_good_push_iff push).0 (e, f); rows = refl }), omega arith)

      go :
          (v e : Bool) (o : Option GithubPush)
          → IsAnswered t (
              if not v
              then (text_response 401 "invalid signature\n", t, none)
              else if not e
              then (no_content, t, none)
              else handle_push X o insertion t)
      go false e o = (inl (refl, omega arith), omega arith)
      go true false o = (inl (refl, omega arith), omega arith)
      go true true none = (inl (refl, omega arith), omega arith)
      go true true (some push) =
          pushed push (is_deletion push.after) (is_good_push push) insertion refl refl

  -- `webhook` queues a job exactly for a request with a valid signature of its body under a secret
  -- that is not empty, the event `push`, and a payload whose commit is 40 or 64 hexadecimal digits
  -- that are not all zero, whose ref begins with `refs/heads/` or `refs/tags/`, and whose repository
  -- has a name and a clone URL that are not empty, if the row was stored; the job has the next id and
  -- the push of the request.
  pub webhook_iff :
      (secret : String) (request : Request) (insertion : Insertion) (t : Table) (job : Job)
      → ((webhook X secret request insertion t).2 ≡ some job)
        ↔ ((insertion ≡ stored) × (job.0 ≡ t.next) × IsAccepted secret request job.1)
  unfolding webhook
  webhook_iff secret request insertion t job = (
    to
        (verify_signature X secret (unwrap_or_default (request.header "x-hub-signature-256"))
          request.body)
        (is_event (request.header "x-github-event")) refl refl,
    from,
  )
    where
      to :
          (v e : Bool)
          → verify_signature X secret
              (unwrap_or_default (request.header "x-hub-signature-256"))
              request.body
            ≡ v
          → is_event (request.header "x-github-event") ≡ e
          → (if not v
              then (text_response 401 "invalid signature\n", t, none)
              else if not e
              then (no_content, t, none)
              else handle_push X (X.parse_push request.body) insertion t).2
            ≡ some job
          → (insertion ≡ stored) × (job.0 ≡ t.next) × IsAccepted secret request job.1
      to false e p q h = cc
      to true false p q h = cc
      to true true p q h =
          let (i, n, parsed, good) =
            (handle_push_iff (X.parse_push request.body) insertion t job).0 h in
          (
            i,
            n,
            record {
              signed = (verify_signature_iff X secret request).0 p;
              event = (is_event_iff _).0 q;
              parsed = parsed;
              push_lem = good;
            },
          )

      from :
          (insertion ≡ stored) × (job.0 ≡ t.next) × IsAccepted secret request job.1
          → (webhook X secret request insertion t).2 ≡ some job
      from (i, n, a) =
          let v = (verify_signature_iff X secret request).1 a.signed in
          let e = (is_event_iff _).1 a.event in
          let h =
            (handle_push_iff (X.parse_push request.body) insertion t job).1
              (i, n, a.parsed, a.push_lem) in
          ground (arith, v, e, h)
