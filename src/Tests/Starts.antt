-- ===== src/Tests/Starts.antt =====
-- The theorems on the start and the end of the server, at a configuration and a run.
use mirum.Base.{
  ◌*◌, ◌+◌, arith, String, ◌≡◌, ◌⊎◌, refl, subst, true, false, none, List, [], ◌∷◌, Result, ok,
}
use mirum.Server.Table.{empty}
use mirum.Server.Config.{Config, validate, validate_server, validate_database, report, harden}
use mirum.Server.Arguments.{argument_of, parse_loop, parse_arguments}
use mirum.Server.Serving.{
  Serving, serving, over, accepting, returned, Event, accepted, signal, cancel_seen, all_joined,
  drained, told, finished, joined, listening, at, step, play,
}
use mirum.Server.Serving.Live.{Ends, signalled-Ends}
use mirum.Server.Start.{
  Environment, Exit, prepare, open_database, assets, restrict_hosts, run, main,
}
use mirum.Server.Start.Success.{Succeeded, main-Succeeded}
use mirum.Server.Start.Validated.{Panicked, main-Panicked}
use mirum.Tests.Servers.{quantities, config}

abbrev environment : Environment
environment = record {
  load = λ path. ok config;
  connect = λ database. ok empty;
  initialized = ok tt;
  has_foundation = true;
  has_application = true;
  is_pattern = λ host. true;
  policy = λ limits. ok tt;
  bind = λ addr. ok tt;
  has_terminate = true;
  has_interrupt = true;
  accept_text = "too many open files";
}

abbrev arguments : List String
arguments = "--config" ∷ "/etc/mirum.toml" ∷ []

-- One connection is open when the signal comes.
abbrev events : List Event
events =
    accepted ∷ signal ∷ cancel_seen ∷ told 0 ∷ finished 0 ∷ joined 0 ∷ all_joined ∷ drained ∷ []

abbrev ended : Serving
ended = record { phase = returned (ok tt); connections = []; is_cancelled = true }

abbrev success : Exit
success = record {
  code = 0;
  stdout = [];
  stderr = "mirum-server: listening on 127.0.0.1:8080" ∷ [];
}

main-Succeeded_example :
    (parse_arguments arguments ≡ ok none) ⊎ Succeeded environment arguments events
unfolding play step at listening main parse_arguments parse_loop argument_of run prepare
    open_database assets restrict_hosts harden
main-Succeeded_example = main-Succeeded environment arguments events ended success refl refl refl

-- No handler of SIGINT can be installed.
abbrev unhandled : Environment
unhandled = record environment { has_interrupt = false }

abbrev panic : Exit
panic = record {
  code = 101;
  stdout = [];
  stderr = "mirum-server: listening on 127.0.0.1:8080" ∷ [];
}

main-Panicked_example : Panicked unhandled arguments
unfolding main parse_arguments parse_loop argument_of run prepare open_database assets
    restrict_hosts harden validate validate_server validate_database report
main-Panicked_example =
    main-Panicked unhandled quantities (λ least bits n h. ground (arith, h))
      (λ path c h. subst (λ (x : Config). validate quantities x ≡ []) (config_of h) refl) arguments
      accepting panic refl refl
  where
    config_of : {c : Config} → ◌≡◌ {A = Result String Config} (ok config) (ok c) → config ≡ c
    config_of k = cc

abbrev stopping : Serving
stopping = record { phase = accepting; connections = serving ∷ over ∷ []; is_cancelled = true }

signalled-Ends_example : Ends (2 * 2 + 3) stopping
signalled-Ends_example = signalled-Ends stopping refl refl
