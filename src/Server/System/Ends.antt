-- ===== src/Server/System/Ends.antt =====
-- What has been queued is built (crates/mirum-server/src/daemon.rs).
use mirum.Base.{String, ◌≡◌, refl, ◌∙◌, true, List, ◌∷◌, ◌++◌, arith, ◌==◌}
use mirum.Server.Types.{Crates}
use mirum.Server.Table.{set_result}
use mirum.Server.Webhook.{Job}
use mirum.Server.Build.{Host, build_outcome, finish_build}
use mirum.Server.System.{
  Worker, idle, acquired, building, System, Step, permitted, begun, ended, Reach, later,
}
use mirum.Server.System.Life.{details_of, over, life}
use mirum.Server.System.Refines.{finished_row}
use mirum.Server.System.Owned.{Reach-Owned}

module _ (X : Crates) (secret : String) where
  pub data Runs : System → System → Type 0 where
    done : {s : System} → Runs s s
    next : {s t u : System} → Step X secret s t → Runs t u → Runs s u

  concat : {s t u : System} → Runs s t → Runs t u → Runs s u
  concat done r = r
  concat (next step rest) r = next step (concat rest r)

  -- The task that has the permit comes to its end; the others wait as before.
  to_idle :
      {s : System}
      → Reach X secret s
      → Host
      → (t : System) × Reach X secret t × Runs s t × (t.waiting ≡ s.waiting) × (t.worker ≡ idle)
  to_idle {s} r H = go s.worker refl
    where
      go :
          (w : Worker)
          → s.worker ≡ w
          → (t : System) × Reach X secret t × Runs s t × (t.waiting ≡ s.waiting) × (t.worker ≡ idle)
      go idle k = (s, r, done, refl, k)
      go (acquired job) k =
          let step = begun job true k in
          let last = ended job H true refl in
          (_, later (later r step) last, next step (next last done), refl, refl)
      go (building job) k =
          let last = ended job H true k in (_, later r last, next last done, refl, refl)

  -- From every reachable state, a build whose task waits can be built: there are steps, whatever
  -- task has the permit, after which its row has what its push comes to on the machine `H`.
  pub queued-Ends :
      {s : System}
      → Reach X secret s
      → (before : List Job) (job : Job) (after : List Job) → s.waiting ≡ before ++ job ∷ after
      → (H : Host)
      → (t : System) × Runs s t
        × (life (t.table.rows job.0) ≡ over (details_of job.1) (build_outcome H job.1))
  unfolding finish_build set_result
  queued-Ends {s} r before job after w H =
      let (t, reach, run, same, k) = to_idle r H in
      let step₁ = permitted before job after (same ∙ w) k in
      let step₂ = begun job true refl in
      let step₃ = ended job H true refl in
      let own = Reach-Owned X secret (later (later reach step₁) step₂) in
      (
        _,
        concat run (next step₁ (next step₂ (next step₃ done))),
        finished_row job.1 H (job.0 == job.0) _ (ground arith) own.worker,
      )
