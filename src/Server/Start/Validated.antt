-- ===== src/Server/Start/Validated.antt =====
-- For which reasons a server panics (crates/mirum-server/src/main.rs, daemon.rs).
use mirum.Base.{
  ℕ, String, ◌≡◌, ◌⊎◌, inl, inr, ◌≤◌, refl, Bool, true, false, ◌&&◌, Option, none, some, List, [],
  ◌∷◌, all, ok_or, map_err, ◌>>=◌, Result, ok, err, arith, if◌then◌else◌,
}
use mirum.Server.Config.{Quantities, Config, validate, harden}
use mirum.Server.Config.Harden.{validate-harden}
use mirum.Server.Arguments.{parse_arguments}
use mirum.Server.Arguments.Accepted.{parse_arguments_iff}
use mirum.Server.Serving.{Phase, accepting, joining, waiting, returned}
use mirum.Server.Start.{
  Environment, Refusal, failed, panicked, App, Exit, exit_panic, restrict_hosts, open_database,
  assets, restricted, prepare, serve_with, run, said, exit_of, with_config, with_arguments, main,
}

-- A panic has its reason.
abbrev Explains : {A : Type 0} → Type 0 → Result Refusal A → Type 0
Explains P (err panicked) = P
Explains P (err (failed message)) = Unit {0}
Explains P (ok a) = Unit {0}

module _ (P : Type 0) where
  Explains-bind :
      {A B : Type 0} (r : Result Refusal A) (f : A → Result Refusal B)
      → Explains P r
      → ((a : A) → Explains P (f a))
      → Explains P (r >>= f)
  Explains-bind (ok a) f q later = later a
  Explains-bind (err (failed message)) f q later = tt
  Explains-bind (err panicked) f q later = q

  Explains-map_err : {A : Type 0} (r : Result String A) → Explains P (map_err failed r)
  Explains-map_err (ok a) = tt
  Explains-map_err (err message) = tt

  Explains-if :
      {A : Type 0} (b : Bool) (a : A)
      → (b ≡ false → P)
      → Explains P (if b then ok a else err panicked)
  Explains-if true a reason = tt
  Explains-if false a reason = reason refl

  Explains-ok_or : {A : Type 0} (o : Option A) {a : A} → o ≡ some a → Explains P (ok_or o panicked)
  Explains-ok_or (some a) e = tt
  Explains-ok_or none e = cc

module _ (E : Environment) where
  -- The lists of assets make no catalog, a host name is no pattern of the listener, or a handler of a
  -- signal cannot be installed.
  abbrev pub Reason : Config → Type 0
  Reason config =
      (E.has_foundation && E.has_application ≡ false)
      ⊎ (all E.is_pattern config.server.hostnames ≡ false)
      ⊎ (E.has_terminate && E.has_interrupt ≡ false)

  -- The file was loaded, and there is a reason to panic.
  pub record Panicked (arguments : List String) : Type 0 where
    pub path : String
    pub config : Config
    pub given : arguments ≡ "--config" ∷ path ∷ []
    pub loaded : E.load path ≡ ok config
    pub reason : Reason config

  module _ (Q : Quantities)
      (is_size-min : (least bits n : ℕ) → Q.is_size least bits n ≡ true → least ≤ n)
      (load-validated : (path : String) (c : Config) → E.load path ≡ ok c → validate Q c ≡ []) where
    Explains-prepare : (c : Config) → validate Q c ≡ [] → Explains (Reason c) (prepare E c)
    unfolding prepare open_database assets restrict_hosts
    Explains-prepare c v =
        let P = Reason c in
        Explains-bind P (open_database E c) _
          (Explains-bind P (map_err failed (E.connect c.database)) _
            (Explains-map_err P (E.connect c.database))
            λ table.
              Explains-bind P (map_err failed E.initialized) _ (Explains-map_err P E.initialized)
                λ done. tt)
          λ system.
            Explains-bind P (assets E) _
              (Explains-if P (E.has_foundation && E.has_application) tt λ e. inl e)
              λ there.
                Explains-bind P (restrict_hosts E c.server.hostnames) _
                  (Explains-if P (all E.is_pattern c.server.hostnames)
                    (restricted c.server.hostnames) λ e. inr (inl e))
                  λ hosts.
                    Explains-bind P (ok_or (harden c.server) panicked) _
                      (Explains-ok_or P (harden c.server) (validate-harden Q is_size-min c v).1)
                      λ limits.
                        Explains-bind P (map_err failed (E.policy limits)) _
                          (Explains-map_err P (E.policy limits))
                          λ allowed.
                            Explains-bind P (map_err failed (E.bind c.server.addr)) _
                              (Explains-map_err P (E.bind c.server.addr)) λ bound. tt

    code-of : {a b : Exit} → some a ≡ some b → a.code ≡ b.code
    code-of k = cc

    served :
        (b : Bool) (config : Config) (phase : Phase) (r : Result Refusal App) {exit : Exit}
        → (b ≡ false → Reason config)
        → Explains (Reason config) r
        → exit_of E (said E config r) (serve_with E b phase r) ≡ some exit
        → exit.code ≡ exit_panic
        → Reason config
    served b config phase (err (failed message)) handled q h z =
        absurd (omega (arith, code-of h, z))
    served b config phase (err panicked) handled q h z = q
    served true config (returned (ok done)) (ok app) handled q h z =
        absurd (omega (arith, code-of h, z))
    served true config (returned (err failure)) (ok app) handled q h z =
        absurd (omega (arith, code-of h, z))
    served true config accepting (ok app) handled q h z = cc
    served true config joining (ok app) handled q h z = cc
    served true config waiting (ok app) handled q h z = cc
    served false config phase (ok app) handled q h z = handled refl

    -- When the file that is loaded is valid, and no size below its minimum is accepted: if the process
    -- panics, its arguments were `--config` and a path, the file was loaded, and the assets make no
    -- catalog, a host name of the file is no pattern of the listener, or a handler of SIGTERM or SIGINT
    -- cannot be installed.
    pub main-Panicked :
        (arguments : List String) (phase : Phase) (exit : Exit)
        → main E arguments phase ≡ some exit
        → exit.code ≡ exit_panic
        → Panicked arguments
    unfolding main run
    main-Panicked arguments phase exit h z = go (parse_arguments arguments) refl h
      where
        with_file :
            (path : String) (r : Result String Config)
            → arguments ≡ "--config" ∷ path ∷ []
            → E.load path ≡ r
            → with_config E phase r ≡ some exit
            → Panicked arguments
        with_file path (err message) g e k = absurd (omega (arith, code-of k, z))
        with_file path (ok config) g e k = record {
          path = path;
          config = config;
          given = g;
          loaded = e;
          reason =
              served (E.has_terminate && E.has_interrupt) config phase (prepare E config)
                (λ f. inr (inr f)) (Explains-prepare config (load-validated path config e)) k z;
        }

        go :
            (r : Result String (Option String))
            → parse_arguments arguments ≡ r
            → with_arguments E phase r ≡ some exit
            → Panicked arguments
        go (ok none) e k = absurd (omega (arith, code-of k, z))
        go (err message) e k = absurd (omega (arith, code-of k, z))
        go (ok (some path)) e k =
            with_file path (E.load path) ((parse_arguments_iff arguments path).0 e).0 refl k
