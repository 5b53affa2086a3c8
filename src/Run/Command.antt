-- ===== src/Run/Command.antt =====
-- `main` of crates/mirum-vm/src/main.rs and the end of `cmd_run`: the four commands, from the storage
-- that is opened to the exit code. The lines about progress, and what `clap` does with the arguments,
-- are not part of this.
pub mod Sound
pub mod Codes
use mirum.Base.{ℕ, String, ◌<>◌, Bool, false, Option, none, some, List, [], ◌∷◌, Result, ok, err}
use mirum.Base.Exec.{◌>>=◌, ◌>>◌}
use mirum.Hmi.Json.{Json}
use mirum.Hmi.Display
use mirum.Oci.World.{World, External, Error as ImageError}
use mirum.Oci.Storage.{open_storage}
use mirum.Oci.Images.{ConfigFile, DirEntry, load}
use mirum.Oci.Registry.{Registry, pull, push}
use mirum.Oci.Display as Images
use mirum.Vmm.Display as Machines
use mirum.Vmm.Qemu.Machine.{QemuMachine}
use mirum.Vmm.Qemu.Qga.{code}
use mirum.Vmm.Qemu.Outside as Vm
use mirum.Vmm.Qemu.Outside.{Outside, Stop, failed, unfinished, ChildState, V}
use mirum.Vmm.Qemu.Lifecycle.{wait}
use mirum.Vmm.Qemu.Lifecycle.Start.{start}
use mirum.Run.{RunError, no_image, no_config, no_boot, no_machine, cmd_run}

-- `Commands`, `ImageCommands` and `MachineCommands`.
pub data Command : Type 0 where
  image_pull image_push : String → Command
  image_load : String → Option String → Command
  machine_run : String → ℕ → Command

-- What is outside: `HOME`, the file `oci-layout`, the directories that `load` reads, the registry, the
-- directory for the machine, its surroundings and how they change, and the texts of errors.
pub record Host : Type 0 where
  pub home : Option String
  pub has_layout : Bool
  pub directory : String → ConfigFile × List DirEntry
  pub registry : Registry
  pub scratch : String
  pub outside : Outside
  pub changes : List (Outside → Outside)
  pub texts : Images.Texts

-- The exit code, and the last line on the standard error.
pub record Process : Type 0 where
  pub code : ℕ
  pub line : Option String

unfoldable pub die : String → Process
die message = record { code = 1; line = some ("mirum-vm: " <> message) }

abbrev pub done : String → Process
done message = record { code = 0; line = some ("mirum-vm: " <> message) }

-- `status.code().unwrap_or(1)`
abbrev pub code_or_one : Option ℕ → ℕ
code_or_one none = 1
code_or_one (some n) = n

-- A machine that `create` has made.
unfoldable pub fresh : QemuMachine → Outside → List (Outside → Outside) → Vm.World
fresh machine outside changes = record {
  machine = machine;
  child = ChildState.not_started;
  is_connected = false;
  acts = [];
  outside = outside;
  changes = changes;
}

module _ (J : Json) (X : External) (H : Host) where
  unfoldable pub run_text : RunError → String
  run_text (no_image error) = Images.display H.texts error
  run_text (no_config error) = Display.display error
  run_text no_boot = "no boot protocol in manifest is supported by the qemu backend"
  run_text (no_machine error) = Machines.display H.texts.io_text error

  -- `start` and `wait`, with so many attempts at a free port and so many rounds.
  unfoldable pub run_machine : ℕ → ℕ → V ℕ
  run_machine fuel rounds = start fuel >> wait rounds

  -- Nothing, when the machine still runs.
  abbrev pub ended : Result Stop ℕ → Option Process
  ended (ok status) = some (record { code = code_or_one (code status); line = none })
  ended (err (failed error)) = some (die (Machines.display H.texts.io_text error))
  ended (err unfinished) = none

  abbrev pub booted : ℕ → ℕ → Result RunError QemuMachine → Option Process
  booted fuel rounds (err error) = some (die (run_text error))
  booted fuel rounds (ok machine) =
      ended (run_machine fuel rounds (fresh machine H.outside H.changes)).0

  abbrev pub reported : {A : Type 0} → (A → String) → Result ImageError A → Process
  reported message (ok a) = done (message a)
  reported message (err error) = die (Images.display H.texts error)

  abbrev pub load_message : String → Option String → String → String
  load_message image none digest = "loaded " <> image <> " (" <> digest <> ", untagged)"
  load_message image (some reference) digest =
      "loaded " <> image <> " as " <> reference <> " (" <> digest <> ")"

  unfoldable pub dispatch : ℕ → ℕ → Command → World → Option Process × World
  dispatch fuel rounds (image_pull name) w =
      let (r, w') = pull X H.registry name w in
      (some (reported (λ digest. "pulled " <> name <> " (" <> digest <> ")") r), w')
  dispatch fuel rounds (image_push name) w =
      let (r, w') = push X H.registry name w in (some (reported (λ u. "pushed " <> name) r), w')
  dispatch fuel rounds (image_load image reference) w =
      let (config, entries) = H.directory image in
      let (r, w') = load X J image config entries reference w in
      (some (reported (load_message image reference) r), w')
  dispatch fuel rounds (machine_run image port) w =
      let (r, w') = cmd_run J X H.registry image H.scratch port w in (booted fuel rounds r, w')

  abbrev pub opened :
      ℕ → ℕ → Command → Result ImageError (Unit {0}) × World → Option Process × World
  opened fuel rounds command (ok u, w) = dispatch fuel rounds command w
  opened fuel rounds command (err error, w) = (some (die (Images.display H.texts error)), w)

  abbrev pub at_home : ℕ → ℕ → Command → Option String → World → Option Process × World
  at_home fuel rounds command none w = (some (die "HOME is not set"), w)
  at_home fuel rounds command (some home) w =
      opened fuel rounds command (open_storage H.has_layout w)

  unfoldable pub main : ℕ → ℕ → Command → World → Option Process × World
  main fuel rounds command w = at_home fuel rounds command H.home w
