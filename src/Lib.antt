-- ===== src/Lib.antt =====
-- Mirum: images of virtual machines, where they are kept, the machines that are started from them, and
-- the server that builds what is pushed.
--
-- A machine image is described by a manifest, `config.json`, which crates/mirum-vm-hmi decodes and
-- validates. crates/mirum-vm-oci keeps images in a local store laid out as OCI blobs with an index of
-- tags, splits disk files into chunks, and exchanges images with registries. crates/mirum-vm-vmm makes
-- machines from validated images through a hypervisor, which is qemu, and runs them. crates/mirum-vm
-- puts these together: it pulls an image, materializes it, and runs it. crates/mirum-server stands by
-- itself: a webhook queues a build of a commit, one worker after the other runs it, and pages show it.
--
-- Base has what all parts share. Base/Text and Base/Decimal are the functions of Rust's standard
-- library on texts, paths and integers that the crates call; Base/Exec is code that changes a state
-- and may fail, where the changes made before a failure stay.
--
-- Hmi is crates/mirum-vm-hmi/src/lib.rs. Hmi/Types has its data, Hmi/Json the decoders that serde
-- derives, which are parameters, Hmi/Validation and Hmi/Validate the `validate` methods with the list
-- of problems they collect, Hmi/Decode the hand-written decoders and `from_json`. Hmi/Spec says what a
-- valid image is without the code; Hmi/Parts, Hmi/Loops and Hmi/Distinct prove the parts of the
-- equivalence in Hmi/Valid. Integers of the manifest are natural numbers, whose widths the decoders
-- check.
--
-- Oci is crates/mirum-vm-oci/src. Oci/World has the state: blobs, temporary files, the index, the
-- files of images, those of a destination, and a list of outcomes that says how each operation of the
-- file system ends, a write or a copy also half way. Oci/Storage is storage.rs, function by function;
-- Oci/Index, Oci/Chunks, Oci/Images, Oci/Layers and Oci/Registry are lib.rs: `index_set`, the chunks
-- of a file, `load`, and what `push`, `pull`, `contains` and `materialize` do. SHA-256, zstd, the JSON
-- of manifests and the registry client are parameters (`External`, `Registry`). A path is named by its
-- last component below its root. The loop over a file runs on fuel, one more than the length of the
-- file, which is enough since every round but the last takes a byte. Oci/Display is error.rs, and
-- Oci/Client the protocol that `make_client` chooses. Oci/Writers lets several processes write the
-- index, each between its own read and write; their other operations on one store are not modelled,
-- and the source directory of `load` does not change. The children of Oci/Chunks and Oci/Storage,
-- Oci/RoundTrip, Oci/Described, Oci/Untagged, Oci/Tagging and Oci/Writers/Races have the proofs.
--
-- Vmm is crates/mirum-vm-vmm/src: Vmm/Monitor is monitor.rs; Vmm/Qemu/Machine is `create`, the
-- command of `start` and its port loops in backend/qemu/mod.rs, with `Path::join`, whose components
-- Vmm/Qemu/Machine/Joined has, Vmm/Qemu/Cli is cli.rs, with what qemu reads of a drive in
-- Vmm/Qemu/Cli/Options (with Vmm/Qemu/Cli/Injected), where the way it splits a value is a
-- parameter, Vmm/Qemu/Qmp and Vmm/Qemu/Qga are how the answers on the two channels are read in
-- qmp.rs and qga.rs, Vmm/Qemu/Session is the handshake and the commands of qmp.rs with what they
-- write, and Vmm/Qemu/Qga/Polls is `exec` there, over the answers of the agent. Vmm/Qemu/Supervise
-- is supervise.rs on Linux. Vmm/Qemu/Lifecycle has the operations of a machine in
-- backend/qemu/mod.rs, with `start` and `update` in Vmm/Qemu/Lifecycle/Start and `exec` and
-- `attach` in Vmm/Qemu/Lifecycle/Access, and the text of the exit code that the wrapper writes in
-- Vmm/Qemu/Lifecycle/Written, on the state of Vmm/Qemu/Outside: what the machine keeps, what it has
-- done to processes, its files, and a list of changes by others, one of which is made before each
-- access. Loops that the source bounds run as often here; `wait`, the port loops and the polls of
-- `exec` run on fuel. Two rounds of `wait` are enough when the wrapper ends, can be waited for, and
-- leaves the exit code, and one round more than the polls that find the command running is enough
-- for `exec`. A port loop ends when the system gives a port that is not used yet. Sockets,
-- timeouts, and operations that run at the same time are not modelled; the limits on products and
-- sums are those of a build without overflow checks.
--
-- Run is `cmd_run` of crates/mirum-vm/src/main.rs up to the start of the machine. Run/Command is the
-- rest of it and `main`: the store is opened, one of the four commands runs, and a machine is started
-- and awaited, up to the exit code. A run of a machine that has not ended when the rounds of `wait`
-- are used up has no exit code. What `clap` does and the lines about progress are not modelled.
--
-- Server is crates/mirum-server/src/daemon.rs. Server/Table is the table of builds with every query
-- on it, Server/Webhook is `webhook` and `verify_signature`, Server/Build is `run_build` between
-- its two queries and `execute_build`, over what commands and files answer, and Server/Pages is
-- `index`, `build`, `health` and `readiness` with what they put into their markup. Server/System is
-- the running process: requests, the tasks that wait for the one permit, the two queries of the
-- task that has it, which may fail, and the start of a new process, as a step relation.
-- Server/System/Life says what a build is to its reader. The HMAC, the decoders of hexadecimal
-- digits and JSON, the database and the commands are parameters or arguments; an insertion may be
-- stored while its answer is lost. Server/Config is config.rs, with the validation that its
-- attributes say and the limits that `harden` sets. Server/Arguments and Server/Start are
-- crates/mirum-server/src/main.rs and the preparation in `run` of daemon.rs, with the panics over
-- the assets, the host names and the handlers of signals; that a line cannot be printed is left
-- out. Server/Serving is `serve` with the end of `run`: what happens to the connections and the
-- signal is a list of events, each with the state after it. The routes and the layers of the HTTP
-- server, the styles and the scripts are not modelled.
--
-- Tests has samples and the theorems at concrete inputs.
pub mod Base
pub mod Hmi
pub mod Oci
pub mod Vmm
pub mod Run
pub mod Server
pub mod Tests
