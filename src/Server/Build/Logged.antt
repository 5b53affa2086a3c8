-- ===== src/Server/Build/Logged.antt =====
-- The log of a build only grows (crates/mirum-server/src/daemon.rs).
use mirum.Base.{
  ℕ, String, ◌<>◌, ◌≡◌, refl, sym, ap, ◌∙◌, zero, suc, some, ◌≢◌, ◌⊎◌, inl, inr, Result, ok, err,
  not, ◌&&◌,
}
use text.Mathlib.TextLemmas.{append-nil, append_assoc}
use mirum.Base.Exec.{IsOrder, Stays, Stays-pure, Stays-raise, Stays-lift, Stays-if, Stays-bind}
use mirum.Server.Types.{GithubPush, succeeded, failed}
use mirum.Server.Build.{
  Host, Invocation, Output, is_success, is_executable, append_output, run_checked, execute_build,
  first_log, outcome_of, build_outcome,
}

pub record IsPrefix (a b : String) : Type 0 where
  pub rest : String
  pub split : b ≡ a <> rest

pub IsPrefix-order : IsOrder IsPrefix
IsPrefix-order = record {
  refl = λ a. record { rest = ""; split = sym (append-nil a) };
  trans = λ a b c h k. record {
    rest = h.rest <> k.rest;
    split = k.split ∙ ap (λ s. s <> k.rest) h.split ∙ append_assoc a h.rest k.rest;
  };
}

IsPrefix-append_output : (o : Output) → Stays IsPrefix (append_output o)
unfolding append_output
IsPrefix-append_output o = record {
  at = λ log. record { rest = o.stdout <> o.stderr; split = refl };
}

module _ (H : Host) where
  IsPrefix-run_checked :
      (command : Invocation) (name : String) → Stays IsPrefix (run_checked H command name)
  unfolding run_checked
  IsPrefix-run_checked command name =
      Stays-bind IsPrefix-order _ _ (Stays-lift IsPrefix-order _) λ output.
        Stays-bind IsPrefix-order _ _ (IsPrefix-append_output output) λ _.
          Stays-if IsPrefix-order (is_success output.code) _ _ (Stays-pure IsPrefix-order _)
            (Stays-raise IsPrefix-order _)

  pub execute_build-IsPrefix : (push : GithubPush) → Stays IsPrefix (execute_build H push)
  unfolding execute_build
  execute_build-IsPrefix push =
      Stays-bind IsPrefix-order _ _ (Stays-lift IsPrefix-order _) λ temporary.
        Stays-bind IsPrefix-order _ _ (IsPrefix-run_checked _ _) λ _.
          Stays-bind IsPrefix-order _ _ (IsPrefix-run_checked _ _) λ _.
            Stays-bind IsPrefix-order _ _ (Stays-lift IsPrefix-order _) λ metadata.
              Stays-bind IsPrefix-order _ _
                (Stays-if IsPrefix-order (not (metadata.0 && is_executable metadata.1)) _ _
                  (Stays-raise IsPrefix-order _) (Stays-pure IsPrefix-order _))
                (λ _. Stays-bind IsPrefix-order _ _ (Stays-lift IsPrefix-order _) λ output.
                  Stays-bind IsPrefix-order _ _ (IsPrefix-append_output output)
                    λ _. Stays-pure IsPrefix-order _)

  -- Whatever the commands answer, the log that is stored for a build starts with the line that names
  -- the repository and the commit, and the status is `succeeded` exactly when the exit code is 0, and
  -- `failed` otherwise.
  pub build_outcome-IsPrefix :
      (push : GithubPush)
      → let (status, exit_code, log) = build_outcome H push in
        IsPrefix (first_log push) log
        × (((status ≡ succeeded) × (exit_code ≡ some 0))
            ⊎ ((status ≡ failed) × (exit_code ≢ some 0)))
  unfolding build_outcome outcome_of
  build_outcome-IsPrefix push =
      go (execute_build H push (first_log push)) ((execute_build-IsPrefix push).at (first_log push))
    where
      go :
          (r : Result String ℕ × String)
          → IsPrefix (first_log push) r.1
          → let (status, exit_code, log) = outcome_of r in
            IsPrefix (first_log push) log
            × (((status ≡ succeeded) × (exit_code ≡ some 0))
                ⊎ ((status ≡ failed) × (exit_code ≢ some 0)))
      go (ok zero, log) h = (h, inl (refl, refl))
      go (ok (suc n), log) h =
          (IsPrefix-order.trans _ _ _ h (record { rest = _; split = refl }), inr (refl, λ e. cc))
      go (err e, log) h =
          (IsPrefix-order.trans _ _ _ h (record { rest = _; split = refl }), inr (refl, λ e. cc))
