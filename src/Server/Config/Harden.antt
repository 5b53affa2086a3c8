-- ===== src/Server/Config/Harden.antt =====
-- A configuration that was validated can be used (crates/mirum-server/src/daemon.rs).
use mirum.Base.{
  ℕ, zero, suc, ◌≤◌, ◌≡◌, refl, Bool, true, false, Option, some, List, [], ◌∷◌, ◌++◌, arith, String,
}
use mirum.Server.Config.{
  Quantities, Config, report, validate_server, validate, Hardened, non_zero, hardened, harden,
}

report-eq-nil :
    (b : Bool) (path : String) (rest : List String)
    → report b path rest ≡ []
    → (b ≡ true) × (rest ≡ [])
unfolding report
report-eq-nil true path rest h = (refl, h)
report-eq-nil false path rest h = cc

append-eq-nil : (l m : List String) → l ++ m ≡ [] → l ≡ []
append-eq-nil [] m h = refl
append-eq-nil (x ∷ l) m h = cc

non_zero-positive : (n : ℕ) → 1 ≤ n → non_zero n ≡ some n
non_zero-positive zero h = absurd (omega (arith, h))
non_zero-positive (suc n) h = refl

module _ (Q : Quantities)
    (is_size-min : (least bits n : ℕ) → Q.is_size least bits n ≡ true → least ≤ n) where
  -- When no size below its minimum is accepted, a configuration without problems is used without a
  -- panic, and the limits that are set are those of the configuration.
  pub validate-harden :
      (c : Config)
      → validate Q c ≡ []
      → (h : Hardened) × (harden c.server ≡ some h)
        × (h.concurrent ≡ c.server.max_concurrent_requests)
        × (h.queued ≡ c.server.max_queued_requests)
        × (h.http2_streams ≡ c.server.http2_max_concurrent_streams)
        × (h.http2_header_list ≡ c.server.http2_max_header_list_bytes)
        × (8192 ≤ h.http1_buffer)
        × (1 ≤ h.body_limit)
  unfolding validate validate_server harden
  validate-harden c h =
      let (_, r₁) = report-eq-nil _ _ _ (append-eq-nil (validate_server Q c.server) _ h) in
      let (buffer, r₂) = report-eq-nil _ _ _ r₁ in
      let (streams, r₃) = report-eq-nil _ _ _ r₂ in
      let (header_list, r₄) = report-eq-nil _ _ _ r₃ in
      let (_, r₅) = report-eq-nil _ _ _ r₄ in
      let (body, r₆) = report-eq-nil _ _ _ r₅ in
      let (_, r₇) = report-eq-nil _ _ _ r₆ in
      let (_, r₈) = report-eq-nil _ _ _ r₇ in
      let (concurrent, r₉) = report-eq-nil _ _ _ r₈ in
      let (queued, r₁₀) = report-eq-nil _ _ _ r₉ in
      (
        _,
        used (non_zero-positive _ (ground (arith, concurrent)))
            (non_zero-positive _ (ground (arith, queued)))
            (non_zero-positive _ (ground (arith, streams)))
            (non_zero-positive _ (is_size-min 1 32 _ header_list)),
        refl,
        refl,
        refl,
        refl,
        is_size-min 8192 64 _ buffer,
        is_size-min 1 64 _ body,
      )
    where
      used :
          {a b d e : Option ℕ} {k l m n : ℕ}
          → a ≡ some k
          → b ≡ some l
          → d ≡ some m
          → e ≡ some n
          → hardened c.server a b d e ≡ hardened c.server (some k) (some l) (some m) (some n)
      used p q r s = cc (p, q, r, s)
