-- ===== src/Server/Pages.antt =====
-- The answers of crates/mirum-server/src/daemon.rs to readers: `index`, `build`, `health`, `readiness`.
-- A page is what is put into its markup; a query may fail, and a text that is cut inside of a character
-- or beyond its end is a panic, `none`.
pub mod Shown
use Prim.Native.Char.{code}
use mathlib.Core.Option
use mirum.Base.{
  ℕ, ◌-◌, String, ◌<>◌, Bool, true, false, Option, none, some, List, [], ◌∷◌, ◌==◌, leb,
  if◌then◌else◌,
}
use mirum.Base.Decimal.{decimal}
use mirum.Server.Types.{Build, Status, queued, running, succeeded, failed, interrupted, Response}
use mirum.Server.Table.{Table, is_pending, recent_builds}
use mirum.Server.Webhook.{text_response}

-- The bytes that a character takes in UTF-8.
abbrev pub width : ℕ → ℕ
width c = if leb c 127 then 1 else if leb c 2047 then 2 else if leb c 65535 then 3 else 4

-- `&s[..n]`
unfoldable pub slice_to : ℕ → String → Option String
slice_to n String.[] = if n == 0 then some "" else none
slice_to n (String.◌∷◌ c s) =
    let rest = slice_to (n - width (code c)) s in
    if n == 0
    then some ""
    else if leb (width (code c)) n
    then Option.map (String.◌∷◌ c) rest
    else none

-- The texts of the column `status`.
unfoldable pub status_text : Status → String
status_text queued = "queued"
status_text running = "running"
status_text succeeded = "succeeded"
status_text failed = "failed"
status_text interrupted = "interrupted"

pub record Item : Type 0 where
  pub href : String
  pub link : String
  pub status : String

pub data Page : Type 0 where
  no_builds : Page
  builds : List Item → Page
  -- title, repository, commit, reference, status, exit code, log, and whether it loads itself again
  build_page : String → String → String → String → String → Option ℕ → String → Bool → Page

pub data Answer : Type 0 where
  page : Page → Answer
  response : Response → Answer

unfoldable pub internal_error : Response
internal_error = text_response 500 "internal server error\n"

unfoldable pub json_status : ℕ → String → Response
json_status status value = record {
  status = status;
  content_type = some "application/json; charset=utf-8";
  location = none;
  body = "{\"status\":\"" <> value <> "\"}\n";
}

unfoldable pub item : ℕ × Build → Option Item
item (id, b) =
    Option.map
      (λ short. record {
        href = "/builds/" <> decimal id;
        link = "#" <> decimal id <> " " <> b.repository <> " " <> short;
        status = status_text b.status;
      })
      (slice_to 12 b.commit_sha)

abbrev pub cons : Option Item → Option (List Item) → Option (List Item)
cons (some first) (some rest) = some (first ∷ rest)
cons _ _ = none

unfoldable pub items : List (ℕ × Build) → Option (List Item)
items [] = some []
items (row ∷ rows) = cons (item row) (items rows)

abbrev pub rows_page : List (ℕ × Build) → Option Page
rows_page [] = some no_builds
rows_page (row ∷ rows) = Option.map builds (items (row ∷ rows))

unfoldable pub index : Bool → Table → Option Answer
index true t = Option.map page (rows_page (recent_builds t))
index false t = some (response internal_error)

abbrev pub row_page : ℕ → Option Build → Answer
row_page id none = response (text_response 404 "build not found\n")
row_page id (some b) = page (
    build_page ("Build #" <> decimal id <> " - Mirum") b.repository b.commit_sha b.git_ref
      (status_text b.status) b.exit_code b.log (is_pending b.status))

unfoldable pub build : Bool → ℕ → Table → Answer
build true id t = row_page id (t.rows id)
build false id t = response internal_error

unfoldable pub health : Response
health = json_status 200 "ok"

-- What `SELECT 1` gives, if it does not fail.
unfoldable pub readiness : Option ℕ → Response
readiness none = json_status 503 "unavailable"
readiness (some n) = if n == 1 then json_status 200 "ready" else json_status 503 "unavailable"
