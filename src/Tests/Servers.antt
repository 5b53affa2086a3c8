-- ===== src/Tests/Servers.antt =====
-- The theorems on the server, at a push, a machine and a run.
use mirum.Base.{
  ltb, leb, not, ◌&&◌, ◌^◌, ℕ, ◌≡◌, ◌≢◌, ◌⊎◌, ◌↔◌, refl, true, none, some, List, [], ◌∷◌, ok, ◌=s=◌,
  if◌then◌else◌,
}
use mirum.Base.Text.{strip_prefix, is_ascii_hexdigit}
use mirum.Server.Types.{GithubPush, Request, Crates, succeeded, failed}
use mirum.Server.Table.{initialize_database, empty, recent_builds}
use mirum.Server.Webhook.{verify_signature, is_deletion, is_good_push, stored, webhook}
use mirum.Server.Webhook.Answers.{IsAccepted, IsAnswered, webhook_iff, webhook-IsAnswered}
use mirum.Server.Build.{first_log, Host, build_outcome}
use mirum.Server.Build.Logged.{IsPrefix, build_outcome-IsPrefix}
use mirum.Server.System.{spawn, System, boot, receive, received, Reach, start, later}
use mirum.Server.System.Invariant.{Inv}
use mirum.Server.System.Preserved.{Reach-Inv}
use mirum.Server.System.Life.{details_of, over, life, Advance}
use mirum.Server.System.Refines.{Step-Advance}
use mirum.Server.System.Ends.{Runs, queued-Ends}
use mirum.Server.Config.{
  Quantities, Config, default_server, default_max_connections, default_connect_timeout_seconds,
}
use mirum.Server.Pages.{Item, page, index}
use mirum.Server.Pages.Shown.{Items, page_of, index-Items}

abbrev push : GithubPush
push = record {
  git_ref = "refs/heads/main";
  after = "ABCDEF0123456789abcdef0123456789abcdef01";
  repository = record { full_name = "a/b"; clone_url = "https://example.org/a/b" };
}

abbrev crates : Crates
crates = record {
  hex_decode = λ s. if s =s= "ab" then some (171 ∷ []) else none;
  hmac_verify = λ key body signature. key =s= "key";
  parse_push = λ body. some push;
}

abbrev request : Request
request = record {
  header = λ name. if name =s= "x-github-event" then some "push" else some "sha256=ab";
  body = 123 ∷ [];
}

-- A machine on which every command ends well.
abbrev host : Host
host = record {
  tempdir = ok "/tmp/b";
  output = λ command.
      ok record { code = some 0; status = "exit status: 0"; stdout = command.program; stderr = "" };
  metadata = λ path. ok (true, 493);
}

webhook_iff_example :
    ((webhook crates "key" request stored empty).2 ≡ some (1, push))
    ↔ ((stored ≡ stored) × ◌≡◌ {A = ℕ} 1 1 × IsAccepted crates "key" request push)
webhook_iff_example = webhook_iff crates "key" request stored empty (1, push)

webhook-IsAnswered_example : IsAnswered crates empty (webhook crates "key" request stored empty)
webhook-IsAnswered_example = webhook-IsAnswered crates "key" request stored empty

build_outcome-IsPrefix_example :
    let (status, exit_code, log) = build_outcome host push in
    IsPrefix (first_log push) log
    × (((status ≡ succeeded) × (exit_code ≡ some 0)) ⊎ ((status ≡ failed) × (exit_code ≢ some 0)))
build_outcome-IsPrefix_example = build_outcome-IsPrefix host push

abbrev asked : System
asked = receive crates "key" request stored (boot empty)

asked-Reach : Reach crates "key" asked
asked-Reach = later start (received request stored)

Reach-Inv_example : Inv asked
Reach-Inv_example = Reach-Inv crates "key" asked-Reach

Step-Advance_example : Advance (life (empty.rows 1)) (life (asked.table.rows 1))
unfolding boot initialize_database
Step-Advance_example = Step-Advance crates "key" start (received request stored) 1

queued-Ends_example :
    (t : System) × Runs crates "key" asked t
    × (life (t.table.rows 1) ≡ over (details_of push) (build_outcome host push))
unfolding receive webhook spawn verify_signature strip_prefix is_deletion is_good_push
    is_ascii_hexdigit boot initialize_database
queued-Ends_example = queued-Ends crates "key" asked-Reach [] (1, push) [] refl host

index-Items_example :
    (l : List Item) × (index true asked.table ≡ some (page (page_of l)))
    × Items (recent_builds asked.table) l
index-Items_example = index-Items crates "key" asked-Reach

abbrev pub quantities : Quantities
quantities = record {
  is_duration = λ n. leb 1 n;
  is_size = λ least bits n. leb least n && ltb n (2 ^ bits);
  is_filled = λ url. not (url =s= "");
  is_authority = λ authority. true;
}

abbrev pub config : Config
config = record {
  server = default_server;
  secret = "key";
  database = record {
    url = "postgres://localhost/mirum";
    max_connections = default_max_connections;
    connect_timeout_seconds = default_connect_timeout_seconds;
  };
}
