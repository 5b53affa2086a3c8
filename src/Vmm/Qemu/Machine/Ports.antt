-- ===== src/Vmm/Qemu/Machine/Ports.antt =====
-- The loops of `start` in crates/mirum-vm-vmm/src/backend/qemu/mod.rs that look for ports. The ports
-- that the system gives, or its failures, are a list of answers; the files that the ports are written
-- to are left out.
use mirum.Base.{
  ℕ, ◌≡◌, refl, Bool, true, false, Option, none, some, List, [], ◌∷◌, ◌++◌, arith, ok, err,
  if◌then◌else◌, ◌≢◌, All, ◌⊎◌, inl, inr, sym, subst, map, ◌∙◌,
}
use mirum.Base.Exec.{Exec, pure, pure-eq-ok, bind-eq-ok, ◌>>=◌}
use mirum.Vmm.Monitor.{has_id}
use mirum.Vmm.Qemu.Machine.{ChosenPorts}

-- Why there is no port: the system failed, or has not answered yet.
pub data NoPort : Type 0 where
  failed waiting : NoPort

-- `free_port` until it gives a port that is not among those.
unfoldable pub other_port : List ℕ → Exec (List (Option ℕ)) NoPort ℕ
other_port used [] = (err waiting, [])
other_port used (none ∷ answers) = (err failed, answers)
other_port used (some port ∷ answers) =
    let later = other_port used answers in if has_id used port then later else (ok port, answers)

abbrev pub used_by : ℕ → Option ℕ → List ℕ
used_by qmp none = qmp ∷ []
used_by qmp (some qga) = qmp ∷ qga ∷ []

unfoldable pub qga_port : Bool → ℕ → Exec (List (Option ℕ)) NoPort (Option ℕ)
qga_port false qmp = pure none
qga_port true qmp = do port ← other_port (qmp ∷ []); pure (some port)

unfoldable pub choose_ports : Bool → Exec (List (Option ℕ)) NoPort ChosenPorts
choose_ports has_qga = do
  qmp ← other_port []
  qga ← qga_port has_qga qmp
  console ← other_port (used_by qmp qga)
  pure record { qmp = qmp; qga = qga; console = console }

-- No two channels have the same port.
abbrev pub AreDifferent : ℕ → Option ℕ → ℕ → Type 0
AreDifferent qmp none console = console ≢ qmp
AreDifferent qmp (some qga) console = (qga ≢ qmp) × (console ≢ qmp) × (console ≢ qga)

-- Ports of which each is not among those used before are different.
pub fresh-AreDifferent :
    (qmp console : ℕ) (qga : Option ℕ)
    → (qga ≡ none) ⊎ ((port : ℕ) × (qga ≡ some port) × (port ≢ qmp))
    → has_id (used_by qmp qga) console ≡ false
    → AreDifferent qmp qga console
fresh-AreDifferent qmp console none d f = λ e. ground (arith, f, e)
fresh-AreDifferent qmp console (some g) (inl d) f = cc
fresh-AreDifferent qmp console (some g) (inr (port, e, d)) f =
    (λ q. d (some-of e ∙ q), λ q. ground (arith, f, q), λ q. ground (arith, f, q))
  where
    some-of : {a b : ℕ} → some a ≡ some b → b ≡ a
    some-of h = cc

other_port-fresh :
    (used : List ℕ) (answers : List (Option ℕ)) {port : ℕ} {rest : List (Option ℕ)}
    → other_port used answers ≡ (ok port, rest)
    → has_id used port ≡ false
unfolding other_port
other_port-fresh used [] h = cc
other_port-fresh used (none ∷ answers) h = cc
other_port-fresh used (some p ∷ answers) {port = port} {rest = rest} h =
    let later = other_port-fresh used answers {port = port} {rest = rest} in ground arith

qga_port-different :
    (has_qga : Bool) (qmp : ℕ) (answers : List (Option ℕ)) {qga : Option ℕ} {rest : List (Option ℕ)}
    → qga_port has_qga qmp answers ≡ (ok qga, rest)
    → (qga ≡ none) ⊎ ((port : ℕ) × (qga ≡ some port) × (port ≢ qmp))
unfolding qga_port
qga_port-different false qmp answers {qga} h = inl (sym (pure-eq-ok none answers h).0)
qga_port-different true qmp answers h =
    let (port, later, found, end) = bind-eq-ok (other_port (qmp ∷ [])) _ answers h in
    let fresh = other_port-fresh (qmp ∷ []) answers found in
    inr (port, sym (pure-eq-ok (some port) later end).0, λ e. ground (arith, fresh, e))

-- The ports that `start` chooses, when it has chosen them, are different from each other, whatever
-- ports the system gives.
pub choose_ports-AreDifferent :
    (has_qga : Bool) (answers : List (Option ℕ)) {ports : ChosenPorts} {rest : List (Option ℕ)}
    → choose_ports has_qga answers ≡ (ok ports, rest)
    → AreDifferent ports.qmp ports.qga ports.console
unfolding choose_ports
choose_ports-AreDifferent has_qga answers {ports} h =
    let (qmp, a₁, first, then₁) = bind-eq-ok (other_port []) _ answers h in
    let (qga, a₂, second, then₂) = bind-eq-ok (qga_port has_qga qmp) _ a₁ then₁ in
    let (console, a₃, third, then₃) = bind-eq-ok (other_port (used_by qmp qga)) _ a₂ then₂ in
    let chosen = (pure-eq-ok record { qmp = qmp; qga = qga; console = console } a₃ then₃).0 in
    subst (λ (p : ChosenPorts). AreDifferent p.qmp p.qga p.console) chosen
      (fresh-AreDifferent qmp console qga (qga_port-different has_qga qmp a₁ second)
        (other_port-fresh _ a₂ third))

-- Each of the loops ends: it takes the first port of the answers that is not used, however many used
-- ones come before it.
pub other_port-found :
    (used : List ℕ) (before : List ℕ) (port : ℕ) (after : List (Option ℕ))
    → All (λ p. has_id used p ≡ true) before
    → has_id used port ≡ false
    → other_port used (map some before ++ some port ∷ after) ≡ (ok port, after)
unfolding other_port
other_port-found used [] port after h k = rw k refl
other_port-found used (p ∷ before) port after h k =
    rw h.0 (other_port-found used before port after h.1 k)
