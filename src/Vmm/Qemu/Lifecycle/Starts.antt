-- ===== src/Vmm/Qemu/Lifecycle/Starts.antt =====
-- What a successful `start` of crates/mirum-vm-vmm/src/backend/qemu/mod.rs has done.
use mirum.Base.{
  ℕ, zero, suc, String, ◌≡◌, ◌≢◌, refl, sym, subst, ap, ◌∙◌, ◌⊎◌, inl, inr, Bool, true, false,
  Option, none, some, List, [], ◌∷◌, ◌++◌, Result, ok, arith, if◌then◌else◌,
}
use mirum.Base.Exec.{
  pure, raise, gets, ◌>>=◌, continue, bind-eq-ok, pure-eq-ok, Stays, Stays-pure, Stays-raise,
  Stays-if, Stays-bind,
}
use mirum.Vmm.Monitor.{has_id}
use mirum.Vmm.Qemu.Cli.{to_argv}
use mirum.Vmm.Qemu.Machine.{ChosenPorts, start_command}
use mirum.Vmm.Qemu.Machine.Ports.{AreDifferent, fresh-AreDifferent, used_by}
use mirum.Vmm.Qemu.Outside.{ChildState, World, Stop, V, spawned, look, modify, act, write_file, try}
use mirum.Vmm.Qemu.Lifecycle.{remove_files, kill}
use mirum.Vmm.Qemu.Lifecycle.Start.{
  free_port, port_rounds, start_qga, start_ports, spawn, make_ready, is_started, start_new, start,
}
use mirum.Vmm.Qemu.Lifecycle.Looks.{
  Same, Same-order, look-Same, found-Same, remove_files-Same, write_file-Same,
}

free_port-Same : Stays Same free_port
unfolding free_port
free_port-Same =
    Stays-bind Same-order _ _ (look-Same _) λ port. found-Same port _ (Stays-raise Same-order _)

port_rounds-Same : (used : List ℕ) (rounds : ℕ) → Stays Same (port_rounds used rounds)
port_rounds-Same used zero = Stays-raise Same-order _
port_rounds-Same used (suc rounds) = Stays-bind Same-order _ _ free_port-Same λ port.
    Stays-if Same-order (has_id used port) _ _ (port_rounds-Same used rounds)
      (Stays-pure Same-order _)

start_qga-Same : (fuel : ℕ) (has_qga : Bool) (qmp : ℕ) → Stays Same (start_qga fuel has_qga qmp)
start_qga-Same fuel false qmp = Stays-pure Same-order _
start_qga-Same fuel true qmp =
    Stays-bind Same-order _ _ (port_rounds-Same (qmp ∷ []) fuel)
      λ port. Stays-bind Same-order _ _ (write_file-Same _ _) λ u. Stays-pure Same-order _

start_ports-Same : (fuel : ℕ) (has_qga : Bool) → Stays Same (start_ports fuel has_qga)
unfolding start_ports
start_ports-Same fuel has_qga = Stays-bind Same-order _ _ free_port-Same λ qmp.
    Stays-bind Same-order _ _ (write_file-Same _ _) λ u.
      Stays-bind Same-order _ _ (start_qga-Same fuel has_qga qmp) λ qga.
        Stays-bind Same-order _ _ (port_rounds-Same (used_by qmp qga) fuel)
          λ console. Stays-bind Same-order _ _ (write_file-Same _ _) λ u. Stays-pure Same-order _

port_rounds-fresh :
    (used : List ℕ) (rounds : ℕ) (w : World) {port : ℕ} {w' : World}
    → port_rounds used rounds w ≡ (ok port, w')
    → has_id used port ≡ false
unfolding raise
port_rounds-fresh used zero w h = cc
port_rounds-fresh used (suc rounds) w {port} {w'} h =
    let (p, w₁, first, rest) = bind-eq-ok free_port _ w h in
    go p w₁ (has_id used p) refl (λ k. port_rounds-fresh used rounds w₁ k) rest
  where
    go :
        (p : ℕ) (w₁ : World) (is_used : Bool)
        → has_id used p ≡ is_used
        → (port_rounds used rounds w₁ ≡ (ok port, w') → has_id used port ≡ false)
        → (if is_used then port_rounds used rounds else pure p) w₁ ≡ (ok port, w')
        → has_id used port ≡ false
    go p w₁ true e later k = later k
    go p w₁ false e later k = ap (has_id used) (sym (pure-eq-ok p w₁ k).0) ∙ e

start_qga-different :
    (fuel : ℕ) (has_qga : Bool) (qmp : ℕ) (w : World) {qga : Option ℕ} {w' : World}
    → start_qga fuel has_qga qmp w ≡ (ok qga, w')
    → (qga ≡ none) ⊎ ((port : ℕ) × (qga ≡ some port) × (port ≢ qmp))
start_qga-different fuel false qmp w h = inl (sym (pure-eq-ok none w h).0)
start_qga-different fuel true qmp w h =
    let (port, w₁, taken, rest) = bind-eq-ok (port_rounds (qmp ∷ []) fuel) _ w h in
    let (u, w₂, _, end) = bind-eq-ok (write_file "qemu.qga-port" _) _ w₁ rest in
    inr (
      port,
      sym (pure-eq-ok (some port) w₂ end).0,
      λ e. ground (arith, port_rounds-fresh (qmp ∷ []) fuel w taken, e),
    )

start_ports-AreDifferent :
    (fuel : ℕ) (has_qga : Bool) (w : World) {ports : ChosenPorts} {w' : World}
    → start_ports fuel has_qga w ≡ (ok ports, w')
    → AreDifferent ports.qmp ports.qga ports.console
unfolding start_ports
start_ports-AreDifferent fuel has_qga w h =
    let (qmp, w₁, _, rest₁) = bind-eq-ok free_port _ w h in
    let (_, w₂, _, rest₂) = bind-eq-ok (write_file "qemu.qmp-port" _) _ w₁ rest₁ in
    let (qga, w₃, second, rest₃) = bind-eq-ok (start_qga fuel has_qga qmp) _ w₂ rest₂ in
    let (console, w₄, third, rest₄) = bind-eq-ok (port_rounds (used_by qmp qga) fuel) _ w₃ rest₃ in
    let (_, w₅, _, end) = bind-eq-ok (write_file "qemu.console-port" _) _ w₄ rest₄ in
    let chosen = (pure-eq-ok record { qmp = qmp; qga = qga; console = console } w₅ end).0 in
    subst (λ (p : ChosenPorts). AreDifferent p.qmp p.qga p.console) chosen
      (fresh-AreDifferent qmp console qga (start_qga-different fuel has_qga qmp w₂ second)
        (port_rounds-fresh (used_by qmp qga) fuel w₃ third))

spawn-acts :
    (argv : List String) (w : World) {w' : World}
    → spawn argv w ≡ (ok tt, w')
    → (w'.machine ≡ w.machine) × (w'.acts ≡ w.acts ++ spawned argv ∷ [])
unfolding spawn act raise
spawn-acts argv w {w'} h =
    let (can, w₁, seen, rest) = bind-eq-ok (look (λ o. o.can_spawn)) _ w h in
    let same = subst (λ (p : Result Stop Bool × World). Same w p.1) seen ((look-Same _).at w) in
    go can w₁ _ same rest
  where
    go :
        (can : Bool) (w₁ : World) (e : Stop)
        → Same w w₁
        → (if can then act (spawned argv) else raise e) w₁ ≡ (ok tt, w')
        → (w'.machine ≡ w.machine) × (w'.acts ≡ w.acts ++ spawned argv ∷ [])
    go true w₁ e same k = (
      sym (ap (λ (p : Result Stop (Unit {0}) × World). p.1.machine) k) ∙ same.0,
      sym (ap (λ (p : Result Stop (Unit {0}) × World). p.1.acts) k)
          ∙ ap (λ l. l ++ spawned argv ∷ []) same.2,
    )
    go false w₁ e same k = cc

-- An agent that is ready, or not promised, changes nothing more.
make_ready-Same :
    (qga : Option ℕ) (w : World) {w' : World} → make_ready qga w ≡ (ok tt, w') → Same w w'
unfolding raise
make_ready-Same none w h = subst (Same w) (sym (pure-eq-ok tt w h).1) (refl, refl, refl)
make_ready-Same (some port) w {w'} h =
    let (is_ready, w₁, seen, rest) = bind-eq-ok (look (λ o. o.is_ready port)) _ w h in
    let same = subst (λ (p : Result Stop Bool × World). Same w p.1) seen ((look-Same _).at w) in
    go is_ready w₁ _ same rest
  where
    go :
        (is_ready : Bool) (w₁ : World) (e : Stop)
        → Same w w₁
        → (if is_ready then pure tt else try kill >>= λ r. raise e) w₁ ≡ (ok tt, w')
        → Same w w'
    go true w₁ e same k = subst (Same w) (sym (pure-eq-ok tt w₁ k).1) same
    go false w₁ e same k = let (r, w₂, _, end) = bind-eq-ok (try kill) _ w₁ k in cc

Stays-result :
    {A : Type 0} (m : V A) (w : World) {r : Result Stop A} {w' : World}
    → Stays Same m
    → m w ≡ (r, w')
    → Same w w'
Stays-result {A} m w h e = subst (λ (p : Result Stop A × World). Same w p.1) e (h.at w)

disconnect-Same : Stays Same (modify (λ w. record w { is_connected = false }))
unfolding modify
disconnect-Same = record { at = λ w. (refl, refl, refl) }

modify-eq : (f : World → World) (w : World) {w' : World} → modify f w ≡ (ok tt, w') → w' ≡ f w
unfolding modify
modify-eq f w h = sym (ap (λ p. p.1) h)

-- A `start` that succeeds, whatever the outside does: the machine was not running and is now, its
-- settings are as before, and one process was started and nothing else done to processes: the command
-- of the machine with ports that are different from each other.
pub start-spawned :
    (fuel : ℕ) (w : World) {w' : World}
    → start fuel w ≡ (ok tt, w')
    → (w.child ≢ ChildState.running)
      × (w'.child ≡ ChildState.running)
      × (w'.machine ≡ w.machine)
      × (ports : ChosenPorts) × (has_kvm : Bool) × AreDifferent ports.qmp ports.qga ports.console
      × (w'.acts ≡ w.acts ++ spawned (to_argv (start_command w.machine has_kvm ports)) ∷ [])
unfolding start start_new gets ◌>>=◌ continue raise
start-spawned fuel w {w'} h = go (is_started w.child) refl _ h
  where
    not_running : is_started w.child ≡ false → w.child ≢ ChildState.running
    not_running e q = cc (e, ap is_started q)

    go :
        (started : Bool)
        → is_started w.child ≡ started
        → (e : Stop) → (if started then raise e else start_new fuel w.machine) w ≡ (ok tt, w')
        → (w.child ≢ ChildState.running)
          × (w'.child ≡ ChildState.running)
          × (w'.machine ≡ w.machine)
          × (ports : ChosenPorts) × (has_kvm : Bool) × AreDifferent ports.qmp ports.qga
              ports.console
          × (w'.acts ≡ w.acts ++ spawned (to_argv (start_command w.machine has_kvm ports)) ∷ [])
    go true q e k = cc
    go false q e k =
        let (_, w₁, removed, rest₁) = bind-eq-ok remove_files _ w k in
        let (_, w₂, closed, rest₂) =
          bind-eq-ok (modify (λ v. record v { is_connected = false })) _ w₁ rest₁ in
        let (ports, w₃, chosen, rest₃) = bind-eq-ok (start_ports fuel w.machine.qga) _ w₂ rest₂ in
        let (has_kvm, w₄, seen, rest₄) = bind-eq-ok (look (λ o. o.has_kvm)) _ w₃ rest₃ in
        let (_, w₅, run, rest₅) =
          bind-eq-ok (spawn (to_argv (start_command w.machine has_kvm ports))) _ w₄ rest₄ in
        let (_, w₆, set, rest₆) =
          bind-eq-ok (modify (λ v. record v { child = ChildState.running })) _ w₅ rest₅ in
        let last = make_ready-Same ports.qga w₆ rest₆ in
        let is = modify-eq (λ v. record v { child = ChildState.running }) w₅ set in
        let (same_machine, more) = spawn-acts _ w₄ run in
        let before : Same w w₄ =
          Same-order.trans w w₁ w₄ (Stays-result remove_files w remove_files-Same removed) (
            Same-order.trans w₁ w₂ w₄ (Stays-result _ w₁ disconnect-Same closed) (
              Same-order.trans w₂ w₃ w₄
                (Stays-result _ w₂ (start_ports-Same fuel w.machine.qga) chosen)
                (Stays-result _ w₃ (look-Same _) seen))) in
        (
          not_running q,
          last.1 ∙ ap (λ (v : World). v.child) is,
          last.0 ∙ ap (λ (v : World). v.machine) is ∙ same_machine ∙ before.0,
          ports,
          has_kvm,
          start_ports-AreDifferent fuel w.machine.qga w₂ chosen,
          last.2
              ∙ ap (λ (v : World). v.acts) is
              ∙ more
              ∙ ap (λ l. l ++ spawned (to_argv (start_command w.machine has_kvm ports)) ∷ [])
                  before.2,
        )
