-- ===== src/Server/Start/Success.antt =====
-- When mirum-server ends with success (crates/mirum-server/src/main.rs, daemon.rs).
use mirum.Base.{
  String, ◌≡◌, ◌≢◌, refl, ◌⊎◌, inl, inr, Bool, true, false, ◌&&◌, Option, none, some, List, [], ◌∷◌,
  Result, ok, err, arith,
}
use mirum.Server.Config.{Config}
use mirum.Server.Arguments.{parse_arguments}
use mirum.Server.Arguments.Accepted.{parse_arguments_iff}
use mirum.Server.Serving.{
  accept_failed, timed_out, Phase, accepting, joining, waiting, returned, Serving, listening, Event,
  play, is_accept, is_join, is_signal, how_many,
}
use mirum.Server.Serving.Drains.{play-returned}
use mirum.Server.Start.{
  Environment, Refusal, failed, panicked, App, Exit, prepare, serve_with, run, said, exit_of,
  with_config, with_arguments, main,
}

module _ (E : Environment) where
  -- A server that was started and has ended as it should.
  pub record Succeeded (arguments : List String) (events : List Event) : Type 0 where
    pub path : String
    pub config : Config
    pub app : App
    pub given : arguments ≡ "--config" ∷ path ∷ []
    pub filled : path ≢ ""
    pub loaded : E.load path ≡ ok config
    pub prepared : prepare E config ≡ ok app
    pub signalled : how_many is_signal events ≡ 1
    pub joined_all : how_many is_accept events ≡ how_many is_join events

  code-of : {a b : Exit} → some a ≡ some b → a.code ≡ b.code
  code-of k = cc

  served :
      (b : Bool) (config : Config) (phase : Phase) (r : Result Refusal App) {exit : Exit}
      → exit_of E (said E config r) (serve_with E b phase r) ≡ some exit
      → exit.code ≡ 0
      → (app : App) × (r ≡ ok app) × (phase ≡ returned (ok tt))
  served b config phase (err (failed message)) h z = absurd (omega (arith, code-of h, z))
  served b config phase (err panicked) h z = absurd (omega (arith, code-of h, z))
  served true config (returned (ok done)) (ok app) h z = (app, refl, refl)
  served true config (returned (err failure)) (ok app) h z = absurd (omega (arith, code-of h, z))
  served true config accepting (ok app) h z = cc
  served true config joining (ok app) h z = cc
  served true config waiting (ok app) h z = cc
  served false config accepting (ok app) h z = absurd (omega (arith, code-of h, z))
  served false config joining (ok app) h z = absurd (omega (arith, code-of h, z))
  served false config waiting (ok app) h z = absurd (omega (arith, code-of h, z))
  served false config (returned (ok done)) (ok app) h z = absurd (omega (arith, code-of h, z))
  served false config (returned (err accept_failed)) (ok app) h z =
      absurd (omega (arith, code-of h, z))
  served false config (returned (err timed_out)) (ok app) h z = absurd (omega (arith, code-of h, z))

  loaded_by :
      (phase : Phase) (r : Result String Config) {exit : Exit}
      → with_config E phase r ≡ some exit
      → exit.code ≡ 0
      → (config : Config) × (app : App) × (r ≡ ok config)
        × (prepare E config ≡ ok app)
        × (phase ≡ returned (ok tt))
  unfolding run
  loaded_by phase (ok config) h z =
      let (app, is, e) =
        served (E.has_terminate && E.has_interrupt) config phase (prepare E config) h z in
      (config, app, refl, is, e)
  loaded_by phase (err message) h z = absurd (omega (arith, code-of h, z))

  -- If the process ends with success when its server has come to its phase by some events, then it was
  -- asked for its usage; or its arguments were `--config` and a path that is not empty, the file was
  -- loaded, everything was prepared, one signal came, and every accepted connection was joined.
  pub main-Succeeded :
      (arguments : List String) (events : List Event) (t : Serving) (exit : Exit)
      → play events listening ≡ some t
      → main E arguments t.phase ≡ some exit
      → exit.code ≡ 0
      → (parse_arguments arguments ≡ ok none) ⊎ Succeeded arguments events
  unfolding main
  main-Succeeded arguments events t exit p h z = go (parse_arguments arguments) refl h
    where
      go :
          (r : Result String (Option String))
          → parse_arguments arguments ≡ r
          → with_arguments E t.phase r ≡ some exit
          → (parse_arguments arguments ≡ ok none) ⊎ Succeeded arguments events
      go (ok none) e k = inl e
      go (err message) e k = absurd (omega (arith, code-of k, z))
      go (ok (some path)) e k =
          let (config, app, l, is, r) = loaded_by t.phase (E.load path) k z in
          let (given, filled) = (parse_arguments_iff arguments path).0 e in
          let (one, all) = play-returned events t p r in
          inr (record {
            path = path;
            config = config;
            app = app;
            given = given;
            filled = filled;
            loaded = l;
            prepared = is;
            signalled = one;
            joined_all = all;
          })
