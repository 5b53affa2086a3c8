-- ===== src/Run.antt =====
-- `cmd_run` of crates/mirum-vm/src/main.rs: an image is pulled when it is not there, materialized and
-- decoded, a boot entry and the settings are chosen, and a machine is made. Starting it and waiting
-- for it are not part of this.
pub mod Chosen
pub mod Kept
pub mod Command
use mirum.Base.{
  ℕ, ◌*◌, ◌/◌, ◌%◌, ◌^◌, String, Bool, true, false, Option, none, some, List, [], ◌∷◌, ◌&&◌, Result,
  ok, err, if◌then◌else◌,
}
use mirum.Base.Exec.{Exec, pure, lift, ◌>>=◌, ◌>>◌}
use mirum.Hmi.Json.{Json}
use mirum.Hmi.Types.{Boot, linux, Access, ssh, MachineImage}
use mirum.Hmi.Decode.{ParseError, from_json}
use mirum.Oci.Types.{Bytes}
use mirum.Oci.World.{World, External, Error as ImageError}
use mirum.Oci.Registry.{Registry, contains, pull, materialize}
use mirum.Vmm.Types.{Settings, Error as MachineError}
use mirum.Vmm.Qemu.Machine.{QemuMachine, supports, create}

-- The source turns every error into its text; here it keeps where it comes from.
pub data RunError : Type 0 where
  no_image : ImageError → RunError
  no_config : ParseError → RunError
  no_boot : RunError
  no_machine : MachineError → RunError

abbrev pub is_linux : {V : Type 0} → Boot V → Bool
is_linux (linux b) = true
is_linux _ = false

-- `iter().find(…)`
unfoldable pub find {ℓ} : {A : Type ℓ} → (A → Bool) → List A → Option A
find test [] = none
find test (x ∷ xs) = let rest = find test xs in if test x then some x else rest

abbrev pub or_else {ℓ} : {A : Type ℓ} → Option A → Option A → Option A
or_else none b = b
or_else (some a) b = some a

-- `as u32`
abbrev pub as_u32 : ℕ → ℕ
as_u32 n = n % 2 ^ 32

module _ {V : Type 0} where
  unfoldable pub choose_boot : List (Boot V) → Option (Boot V)
  choose_boot bs = or_else (find (λ b. is_linux b && supports b) bs) (find supports bs)

  -- The port of the first `ssh` access, or 22.
  unfoldable pub guest_port : List (Access V) → ℕ
  guest_port [] = 22
  guest_port (ssh a ∷ as') = a.port
  guest_port (_ ∷ as') = guest_port as'

  unfoldable pub settings : MachineImage V → ℕ → Settings
  settings image port = record {
    cpu = as_u32 image.machine.cpu.default;
    ram = image.machine.ram.default / (1024 * 1024);
    port_forwards = (port, guest_port image.machine.access) ∷ [];
  }

module _ (J : Json) where
  open J use {Value}

  abbrev pub created : Result MachineError QemuMachine → Result RunError QemuMachine
  created (ok m) = ok m
  created (err e) = err (no_machine e)

  unfoldable pub make_with :
      MachineImage Value → String → ℕ → Option (Boot Value) → Result RunError QemuMachine
  make_with image dir port none = err no_boot
  make_with image dir port (some boot) =
      created (create J none image dir boot (settings image port))

  abbrev pub make_from :
      String → ℕ → Result ParseError (MachineImage Value) → Result RunError QemuMachine
  make_from dir port (ok image) = make_with image dir port (choose_boot image.machine.boot)
  make_from dir port (err e) = err (no_config e)

  -- From the bytes of `config.json` to the machine.
  unfoldable pub make_machine : Bytes → String → ℕ → Result RunError QemuMachine
  make_machine config dir port = make_from dir port (from_json J config)

  abbrev pub lifted : {A : Type 0} → Result ImageError A × World → Result RunError A × World
  lifted (ok a, w) = (ok a, w)
  lifted (err e, w) = (err (no_image e), w)

  -- `map_err` on an operation of the image store.
  abbrev pub in_store : {A : Type 0} → Exec World ImageError A → Exec World RunError A
  in_store m w = lifted (m w)

  module _ (X : External) (R : Registry) where
    unfoldable pub fetch : String → Bool → Exec World RunError (Unit {0})
    fetch reference true = pure tt
    fetch reference false = do in_store (pull X R reference); pure tt

    -- Up to the start of the machine; `scratch` is the directory that the image is put into.
    unfoldable pub cmd_run : String → String → ℕ → Exec World RunError QemuMachine
    cmd_run reference scratch port = do
      there ← in_store (contains reference)
      fetch reference there
      config ← in_store (materialize X reference)
      lift (make_machine config scratch port)
