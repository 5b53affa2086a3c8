-- ===== src/Server/Webhook.antt =====
-- `webhook` and `verify_signature` of crates/mirum-server/src/daemon.rs.
pub mod Accepts
pub mod Answers
use mirum.Base.{
  ℕ, ◌+◌, String, ◌<>◌, Bool, true, false, not, ◌&&◌, ◌||◌, Option, none, some, List, [], ◌∷◌, all,
  length, is_some, ◌==◌, ◌=s=◌, if◌then◌else◌,
}
use mirum.Base.Decimal.{decimal}
use mirum.Base.Text.{codes, strip_prefix, is_ascii_hexdigit}
use mirum.Oci.Types.{Bytes}
use mirum.Server.Types.{GithubPush, Request, Response, Crates}
use mirum.Server.Table.{Table, insert_build}
use mirum.Server.Lowercase.{to_ascii_lowercase}

-- How the insertion of a row ends: stored, failed with or without an id taken from the sequence, or
-- stored while its answer does not come back.
pub data Insertion : Type 0 where
  stored refused burnt lost : Insertion

-- A build that was queued, and its push: what the task that is spawned keeps.
abbrev pub Job : Type 0
Job = ℕ × GithubPush

abbrev pub unwrap_or_default : Option String → String
unwrap_or_default none = ""
unwrap_or_default (some s) = s

unfoldable pub text_response : ℕ → String → Response
text_response status body = record {
  status = status;
  content_type = some "text/plain; charset=utf-8";
  location = none;
  body = body;
}

unfoldable pub no_content : Response
no_content = record { status = 204; content_type = some "text/plain"; location = none; body = "" }

unfoldable pub accepted : ℕ → Response
accepted id = record {
  status = 202;
  content_type = none;
  location = some ("/builds/" <> decimal id);
  body = "";
}

-- A deleted branch is pushed as zeros.
unfoldable pub is_deletion : String → Bool
is_deletion after = all (λ c. c == b'0') (codes after)

abbrev pub is_event : Option String → Bool
is_event none = false
is_event (some event) = event =s= "push"

-- The negation of the guard before the insertion. Hexadecimal digits take one byte each, so that their
-- number is the length in bytes.
unfoldable pub is_good_push : GithubPush → Bool
is_good_push push =
    (length (codes push.after) == 40 || length (codes push.after) == 64)
    && all is_ascii_hexdigit (codes push.after)
    && (is_some (strip_prefix "refs/heads/" push.git_ref)
        || is_some (strip_prefix "refs/tags/" push.git_ref))
    && not (push.repository.full_name =s= "")
    && not (push.repository.clone_url =s= "")

module _ (X : Crates) where
  abbrev pub verify_decoded : String → Bytes → Option Bytes → Bool
  verify_decoded secret body none = false
  verify_decoded secret body (some signature) =
      not (secret =s= "") && X.hmac_verify secret body signature

  abbrev pub verify_stripped : String → Bytes → Option String → Bool
  verify_stripped secret body none = false
  verify_stripped secret body (some text) = verify_decoded secret body (X.hex_decode text)

  unfoldable pub verify_signature : String → String → Bytes → Bool
  verify_signature secret signature body =
      verify_stripped secret body (strip_prefix "sha256=" signature)

  abbrev pub queue_build : GithubPush → Insertion → Table → Response × Table × Option Job
  queue_build push stored t = (
    accepted t.next,
    insert_build push.repository.full_name push.repository.clone_url push.git_ref
        (to_ascii_lowercase push.after) t,
    some (t.next, push),
  )
  queue_build push refused t = (text_response 500 "internal server error\n", t, none)
  queue_build push burnt t =
      (text_response 500 "internal server error\n", record t { next = t.next + 1 }, none)
  queue_build push lost t = (
    text_response 500 "internal server error\n",
    insert_build push.repository.full_name push.repository.clone_url push.git_ref
        (to_ascii_lowercase push.after) t,
    none,
  )

  abbrev pub handle_push : Option GithubPush → Insertion → Table → Response × Table × Option Job
  handle_push none insertion t = (text_response 400 "invalid payload\n", t, none)
  handle_push (some push) insertion t =
      if is_deletion push.after
      then (no_content, t, none)
      else if not (is_good_push push)
      then (text_response 400 "invalid push\n", t, none)
      else queue_build push insertion t

  -- The response, the table, and the job of the task that is spawned.
  unfoldable pub webhook : String → Request → Insertion → Table → Response × Table × Option Job
  webhook secret request insertion t =
      let signature = unwrap_or_default (request.header "x-hub-signature-256") in
      if not (verify_signature secret signature request.body)
      then (text_response 401 "invalid signature\n", t, none)
      else if not (is_event (request.header "x-github-event"))
      then (no_content, t, none)
      else handle_push (X.parse_push request.body) insertion t
