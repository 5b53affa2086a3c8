-- ===== src/Server/Start.antt =====
-- `main` of crates/mirum-server/src/main.rs, and `run`, `ASSETS`, `restrict_hosts` and the handlers of
-- `shutdown_signal` of daemon.rs up to its server, which is in Server/Serving.antt. The texts that are
-- printed are lines; that one cannot be written is left out.
pub mod Success
pub mod Validated
use mirum.Base.{
  ℕ, String, ◌<>◌, Bool, true, false, Option, none, some, List, [], ◌∷◌, ◌++◌, ◌&&◌, all, Result,
  ok, err, ok_or, map_err, ◌>>=◌, ◌>>◌, if◌then◌else◌,
}
use mirum.Server.Table.{Table}
use mirum.Server.Config.{Config, Database, Hardened, harden}
use mirum.Server.Arguments.{parse_arguments}
use mirum.Server.Serving.{Failure, accept_failed, timed_out, Phase, returned}
use mirum.Server.System.{System, boot}

-- What is outside: the reader of the file, the database, its two queries at the start, whether the two
-- lists of assets make a catalog, the patterns of host names, the policy of the transport, the listener,
-- whether the handlers of SIGTERM and SIGINT can be installed, and the text of a failure to accept.
pub record Environment : Type 0 where
  pub load : String → Result String Config
  pub connect : Database → Result String Table
  pub initialized : Result String (Unit {0})
  pub has_foundation : Bool
  pub has_application : Bool
  pub is_pattern : String → Bool
  pub policy : Hardened → Result String (Unit {0})
  pub bind : String → Result String (Unit {0})
  pub has_terminate : Bool
  pub has_interrupt : Bool
  pub accept_text : String

-- An error that `run` returns, or a panic.
pub data Refusal : Type 0 where
  failed : String → Refusal
  panicked : Refusal

-- What the listener is given: the state, the names it is restricted to, if any, and the limits.
pub record App : Type 0 where
  pub system : System
  pub hosts : Option (List String)
  pub limits : Hardened

abbrev pub restricted : List String → Option (List String)
restricted [] = none
restricted (host ∷ hosts) = some (host ∷ hosts)

abbrev pub exit_success : ℕ
exit_success = 0

abbrev pub exit_failure : ℕ
exit_failure = 1

-- The exit code of a program whose main thread panics.
abbrev pub exit_panic : ℕ
exit_panic = 101

pub record Exit : Type 0 where
  pub code : ℕ
  pub stdout : List String
  pub stderr : List String

abbrev pub usage : String
usage = "Usage: mirum-server --config <PATH>"

abbrev pub prefixed : String → String
prefixed message = "mirum-server: " <> message

module _ (E : Environment) where
  unfoldable pub restrict_hosts : List String → Result Refusal (Option (List String))
  restrict_hosts hostnames =
      if all E.is_pattern hostnames then ok (restricted hostnames) else err panicked

  -- The server's state, once the database is there.
  unfoldable pub open_database : Config → Result Refusal System
  open_database config = do
    table ← map_err failed (E.connect config.database)
    map_err failed E.initialized
    ok (boot table)

  -- The first use of `ASSETS`, with its two calls of `expect`.
  unfoldable pub assets : Result Refusal (Unit {0})
  assets = if E.has_foundation && E.has_application then ok tt else err panicked

  unfoldable pub prepare : Config → Result Refusal App
  prepare config = do
    system ← open_database config
    assets
    hosts ← restrict_hosts config.server.hostnames
    limits ← ok_or (harden config.server) panicked
    map_err failed (E.policy limits)
    map_err failed (E.bind config.server.addr)
    ok (record { system = system; hosts = hosts; limits = limits })

  abbrev pub failure_text : Failure → String
  failure_text accept_failed = E.accept_text
  failure_text timed_out = "HTTP shutdown exceeded its deadline"

  -- The end of `run` for what it has come to: it may still serve.
  abbrev pub end_of : Phase → Option (Result Refusal (Unit {0}))
  end_of (returned (ok done)) = some (ok done)
  end_of (returned (err failure)) = some (err (failed (failure_text failure)))
  end_of _ = none

  -- `shutdown_signal` runs beside the server, and panics at once when a handler cannot be installed,
  -- unless the server has failed to accept before.
  abbrev pub watched : Bool → Phase → Option (Result Refusal (Unit {0}))
  watched true phase = end_of phase
  watched false (returned (err accept_failed)) = end_of (returned (err accept_failed))
  watched false _ = some (err panicked)

  abbrev pub serve_with : Bool → Phase → Result Refusal App → Option (Result Refusal (Unit {0}))
  serve_with has_handlers phase (err refusal) = some (err refusal)
  serve_with has_handlers phase (ok app) = watched has_handlers phase

  abbrev pub serve_app : Phase → Result Refusal App → Option (Result Refusal (Unit {0}))
  serve_app = serve_with (E.has_terminate && E.has_interrupt)

  unfoldable pub run : Config → Phase → Option (Result Refusal (Unit {0}))
  run config phase = serve_app phase (prepare config)

  -- The line that says that the server listens.
  abbrev pub said : Config → Result Refusal App → List String
  said config (ok app) = prefixed ("listening on " <> config.server.addr) ∷ []
  said config (err refusal) = []

  abbrev pub exit_of : List String → Option (Result Refusal (Unit {0})) → Option Exit
  exit_of lines none = none
  exit_of lines (some (ok done)) =
      some (record { code = exit_success; stdout = []; stderr = lines })
  exit_of lines (some (err (failed message))) =
      some (record { code = exit_failure; stdout = []; stderr = lines ++ prefixed message ∷ [] })
  exit_of lines (some (err panicked)) =
      some (record { code = exit_panic; stdout = []; stderr = lines })

  abbrev pub with_config : Phase → Result String Config → Option Exit
  with_config phase (ok config) = exit_of (said config (prepare config)) (run config phase)
  with_config phase (err message) =
      some (record { code = exit_failure; stdout = []; stderr = prefixed message ∷ [] })

  abbrev pub with_arguments : Phase → Result String (Option String) → Option Exit
  with_arguments phase (ok (some path)) = with_config phase (E.load path)
  with_arguments phase (ok none) =
      some (record { code = exit_success; stdout = usage ∷ []; stderr = [] })
  with_arguments phase (err message) =
      some (record { code = exit_failure; stdout = []; stderr = prefixed message ∷ usage ∷ [] })

  -- How the process ends, if it does, when its server has come to a phase.
  unfoldable pub main : List String → Phase → Option Exit
  main arguments phase = with_arguments phase (parse_arguments arguments)
