-- ===== src/Vmm/Qemu/Lifecycle/Looks.antt =====
-- The operations of crates/mirum-vm-vmm/src/backend/qemu/mod.rs that look at a machine leave it as it
-- is.
use mirum.Base.{
  update, ℕ, zero, suc, String, ◌≡◌, refl, ap, ◌∙◌, Bool, true, false, not, Option, none, some,
  List, [], ◌∷◌, Result, ok, err, if◌then◌else◌,
}
use mirum.Base.Exec.{
  pure, gets, ◌>>=◌, IsOrder, Stays, Stays-pure, Stays-raise, Stays-gets, Stays-if, Stays-bind,
  continue,
}
use mirum.Vmm.Types.{Error}
use mirum.Vmm.Qemu.Outside.{
  State, Outside, World, Stop, V, pass, passed, look, modify, read_file, remove_file, write_file,
  store, try,
}
use mirum.Vmm.Qemu.Lifecycle.{
  read_exit_code, qemu_pid, pid_rounds, read_port, port_of, qmp_client, connect_rounds,
  query_status, as_failed, state, state_of_exit, state_of_pid, found, remove_files,
}

-- The machine, what is known of its process, and what was done to processes, are the same.
abbrev pub Same : World → World → Type 0
Same w w' = (w'.machine ≡ w.machine) × (w'.child ≡ w.child) × (w'.acts ≡ w.acts)

pub Same-order : IsOrder Same
Same-order = record {
  refl = λ w. (refl, refl, refl);
  trans = λ u v w e f. (f.0 ∙ e.0, f.1 ∙ e.1, f.2 ∙ e.2);
}

pass-Same : (changes : List (Outside → Outside)) (w : World) → Same w (pass changes w)
pass-Same [] w = (refl, refl, refl)
pass-Same (change ∷ changes) w = (refl, refl, refl)

pub look-Same : {A : Type 0} (f : Outside → A) → Stays Same (look f)
unfolding look
look-Same f = record { at = λ w. pass-Same w.changes w }

pub try-Same : {A : Type 0} (m : V A) → Stays Same m → Stays Same (try m)
unfolding try
try-Same m h = record { at = h.at }

pub found-Same : {A : Type 0} (o : Option A) (m : V A) → Stays Same m → Stays Same (found o m)
found-Same (some a) m h = Stays-pure Same-order a
found-Same none m h = h

pid_rounds-Same : (rounds : ℕ) → Stays Same (pid_rounds rounds)
unfolding pid_rounds read_file
pid_rounds-Same zero = Stays-raise Same-order _
pid_rounds-Same (suc rounds) =
    Stays-bind Same-order _ _ (look-Same _) λ text. found-Same _ _ (pid_rounds-Same rounds)

port_of-Same : (name : String) (o : Option String) → Stays Same (port_of name o)
port_of-Same name none = Stays-raise Same-order _
port_of-Same name (some text) = found-Same _ _ (Stays-raise Same-order _)

connect_rounds-Same : (port rounds : ℕ) → Stays Same (connect_rounds port rounds)
unfolding connect_rounds modify
connect_rounds-Same port zero = Stays-raise Same-order _
connect_rounds-Same port (suc rounds) = Stays-bind Same-order _ _ (look-Same _) λ is_up.
    Stays-if Same-order is_up _ _ (record { at = λ w. (refl, refl, refl) })
      (connect_rounds-Same port rounds)

pub qmp_client-Same : Stays Same qmp_client
unfolding qmp_client read_port read_file
qmp_client-Same = Stays-bind Same-order _ _ (Stays-gets Same-order _) λ has_client.
    Stays-if Same-order has_client _ _ (Stays-pure Same-order _) (
      Stays-bind Same-order _ _
        (Stays-bind Same-order _ _ (look-Same _) λ text. port_of-Same "qmp" text)
        λ port. connect_rounds-Same port 50)

as_failed-Same : {A : Type 0} (r : Result Error A) → Stays Same (as_failed r)
as_failed-Same (ok a) = Stays-pure Same-order a
as_failed-Same (err e) = Stays-raise Same-order _

state_of_pid-Same : (r : Result Stop ℕ) → Stays Same (state_of_pid r)
unfolding query_status
state_of_pid-Same (err e) = Stays-gets Same-order _
state_of_pid-Same (ok pid) = Stays-bind Same-order _ _ (look-Same _) λ is_alive.
    Stays-if Same-order (not is_alive) _ _ (Stays-pure Same-order _) (
      Stays-bind Same-order _ _
        (try-Same _ (
          Stays-bind Same-order _ _ qmp_client-Same
            λ u. Stays-bind Same-order _ _ (look-Same _) as_failed-Same))
        λ status. Stays-pure Same-order _)

state_of_exit-Same : (o : Option ℕ) → Stays Same (state_of_exit o)
unfolding qemu_pid
state_of_exit-Same (some status) = Stays-pure Same-order _
state_of_exit-Same none =
    Stays-bind Same-order _ _ (try-Same _ (pid_rounds-Same 50)) state_of_pid-Same

remove_file-Same : (name : String) → Stays Same (remove_file name)
unfolding remove_file
remove_file-Same name = record { at = λ w. go w.changes w }
  where
    go :
        (changes : List (Outside → Outside)) (w : World)
        → let v = pass changes w in
          Same w
            (record v { outside = record v.outside { files = update v.outside.files name none } })
    go [] w = (refl, refl, refl)
    go (change ∷ changes) w = (refl, refl, refl)

pub remove_files-Same : Stays Same remove_files
unfolding remove_files
remove_files-Same = Stays-bind Same-order _ _ (remove_file-Same _) λ u.
    Stays-bind Same-order _ _ (remove_file-Same _) λ u.
      Stays-bind Same-order _ _ (remove_file-Same _) λ u.
        Stays-bind Same-order _ _ (remove_file-Same _)
          λ u. Stays-bind Same-order _ _ (remove_file-Same _) λ u. remove_file-Same _

pub write_file-Same : (name text : String) → Stays Same (write_file name text)
unfolding write_file
write_file-Same name text = record {
  at = λ w.
      Same-order.trans w (passed w) (write_file name text w).1 (pass-Same w.changes w)
        (go (passed w).outside.is_writable (passed w));
}
  where
    go : (is_writable : Bool) (w : World) → Same w (store name text is_writable w).1
    go true w = (refl, refl, refl)
    go false w = (refl, refl, refl)

-- The code returns a result, whatever the world is.
pub record Returns {A : Type 0} (m : V A) : Type 0 where
  pub at : (w : World) → (a : A) × ((m w).0 ≡ ok a)

Returns-bind :
    {A B : Type 0} (m : V A) (f : A → V B)
    → Returns m
    → ((a : A) → Returns (f a))
    → Returns (m >>= f)
unfolding ◌>>=◌ continue
Returns-bind m f h k = record {
  at = λ w.
      let (a, e) = h.at w in
      let (b, e') = (k a).at (m w).1 in (b, ap (λ r. (continue r f (m w).1).0) e ∙ e');
}

Returns-look : {A : Type 0} (f : Outside → A) → Returns (look f)
unfolding look
Returns-look f = record { at = λ w. (_, refl) }

Returns-pure : {A : Type 0} (a : A) → Returns (pure a)
unfolding pure
Returns-pure a = record { at = λ w. (a, refl) }

Returns-try : {A : Type 0} (m : V A) → Returns (try m)
unfolding try
Returns-try m = record { at = λ w. (_, refl) }

Returns-if :
    {A : Type 0} (b : Bool) (m n : V A) → Returns m → Returns n → Returns (if b then m else n)
Returns-if true m n h k = h
Returns-if false m n h k = k

state_of_pid-Returns : (r : Result Stop ℕ) → Returns (state_of_pid r)
unfolding gets
state_of_pid-Returns (err e) = record { at = λ w. (_, refl) }
state_of_pid-Returns (ok pid) = Returns-bind _ _ (Returns-look _) λ is_alive.
    Returns-if (not is_alive) _ _ (Returns-pure _)
      (Returns-bind _ _ (Returns-try _) λ status. Returns-pure _)

state_of_exit-Returns : (o : Option ℕ) → Returns (state_of_exit o)
state_of_exit-Returns (some status) = Returns-pure _
state_of_exit-Returns none = Returns-bind _ _ (Returns-try _) state_of_pid-Returns

-- Asking for the state does not fail, whatever the outside does, and changes neither the machine nor
-- what is known of its process, and does nothing to processes.
pub state-Same : (w : World) → ((s : State) × ((state w).0 ≡ ok s)) × Same w (state w).1
unfolding state read_exit_code read_file
state-Same w = (
  (Returns-bind _ _ (Returns-bind _ _ (Returns-look _) λ text. Returns-pure _)
        state_of_exit-Returns).at
      w,
  (Stays-bind Same-order _ _
        (Stays-bind Same-order _ _ (look-Same _) λ text. Stays-pure Same-order _)
        state_of_exit-Same).at
      w,
)
