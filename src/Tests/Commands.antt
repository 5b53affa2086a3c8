-- ===== src/Tests/Commands.antt =====
-- The theorems on the command mirum-vm, on several of them at one store, and on a session with qemu.
use mirum.Base.{
  ℕ, String, ◌≡◌, refl, ap, inl, inr, true, false, Option, none, some, [], ◌∷◌, ok, arith, eq_iff,
  update,
}
use mirum.Base.Text.{
  codes, is_whitespace, is_blank, strip_prefix, components, segments, push_segment, path_components,
  later_components, segment_component,
}
use mirum.Base.Decimal.{decimal, parse_u64_codes}
use mirum.Base.Words.{trim, parse_i32, parse_unsigned}
use mirum.Base.Exec.{◌>>=◌, ◌>>◌}
use mirum.Oci.Types.{get, OciImageManifest, Bytes}
use mirum.Oci.Images.{no_config}
use mirum.Oci.Index.{index_lookup, index_set, is_tagged}
use mirum.Oci.World.{World, External, good, outcome, step}
use mirum.Oci.Storage.{
  access, open_storage, read_index, read_blob, is_absent, parse_index, blob_path, found, copy_out,
  sha256_hex, strip_sha256, safe_component,
}
use mirum.Oci.Storage.Blobs.{IsSound, KeepsBlobs}
use mirum.Oci.Registry.{contains, materialize, digest_of, export_titles, insert_titles}
use mirum.Oci.Writers.{Tag, Shared, Reach}
use mirum.Oci.Writers.Races.{Reach-lost}
use mirum.Oci.Writers as Writers
use mirum.Vmm.Qemu.Outside as Vm
use mirum.Vmm.Qemu.Outside.{remove_file, modify, look, write_file, act}
use mirum.Vmm.Qemu.Lifecycle.{remove_files, exit_of}
use mirum.Vmm.Qemu.Lifecycle.Waits.{Ends}
use mirum.Vmm.Qemu.Lifecycle.Written.{exit_text}
use mirum.Vmm.Qemu.Lifecycle.{wait}
use mirum.Vmm.Qemu.Lifecycle.Start.{start, start_new, start_ports, free_port, spawn}
use mirum.Vmm.Qemu.Qga.{code, bits32, from_code}
use mirum.Vmm.Qemu.Qmp.{is_skipped}
use mirum.Vmm.Qemu.Session.{Request, connect}
use mirum.Vmm.Qemu.Session.Replies.{Reply, converse, session-replies}
use mirum.Run.{
  make_from, make_with, choose_boot, find, settings, guest_port, cmd_run, make_machine, fetch,
}
use mirum.Run.Command.{Host, machine_run, image_load, fresh, main}
use mirum.Run.Command.Sound.{main-IsSound}
use mirum.Run.Command.Codes.{Booted, main-Ends, main-exit_text, main-zero}
use mirum.Hmi.Types.{Architecture}
use mirum.Vmm.Qemu.Machine.{QemuMachine, linux, supports, create, machine_of, find_disk, qemu_boot}
use mirum.Tests.Samples.{json, external, nothing, root_disk, direct_boot, from_json-image}
use mirum.Tests.Lifecycles.{outside}
use mirum.Tests.Machines.{line_json, wire}

-- Two calls on a store without tags.
abbrev debian : Tag
debian = record { reference = "debian"; digest = "sha256:a"; size = 1 }

abbrev ubuntu : Tag
ubuntu = record { reference = "ubuntu"; digest = "sha256:b"; size = 1 }

Reach-lost_example :
    (s : Shared) × Reach [] s
    × (s.reading ≡ [])
    × (s.written ≡ ubuntu ∷ debian ∷ [])
    × (index_lookup s.index "debian" ≡ none)
    × (index_lookup s.index "ubuntu" ≡ some "sha256:b")
unfolding index_lookup
Reach-lost_example =
    Reach-lost [] debian ubuntu (λ h. absurd (ground (arith, h, eq_iff "debian" "ubuntu")))

-- Every line is its own value and result.
abbrev reply : String → Reply line_json wire
reply line = record { noise = "event" ∷ []; line = line; value = line; result = line }

abbrev stop : Request
stop = record { execute = "stop"; value = none }

session-replies_example :
    (connect line_json wire >> converse line_json wire (stop ∷ [])) (record {
      incoming = "event" ∷ "hello" ∷ "event" ∷ "yes" ∷ "event" ∷ "done" ∷ "more" ∷ [];
      sent = [];
      writes = [];
    })
    ≡ (
      ok ("done" ∷ []),
      record {
        incoming = "more" ∷ [];
        sent = record { execute = "qmp_capabilities"; value = none } ∷ stop ∷ [];
        writes = [];
      },
    )
unfolding is_skipped is_blank is_whitespace
session-replies_example =
    session-replies line_json wire (reply "hello") (reply "yes") ((stop, reply "done") ∷ [])
      ("more" ∷ []) (record { skipped = (refl, tt); kept = refl; parsed = refl })
      (record {
        message = record { skipped = (refl, tt); kept = refl; parsed = refl };
        no_error = refl;
        returned = refl;
      })
      (
        record {
          message = record { skipped = (refl, tt); kept = refl; parsed = refl };
          no_error = refl;
          returned = refl;
        },
        tt,
      )

-- A store with a tagged image without layers, whose config is empty.
abbrev manifest : OciImageManifest
manifest = record {
  config = record { media_type = ""; digest = "sha256:c"; size = 0; annotations = none };
  layers = [];
}

abbrev crates : External
crates = record external { decode_manifest = λ bytes. some manifest }

abbrev stored : World
stored = record nothing {
  blobs = update (update nothing.blobs "m" (some (9 ∷ []))) "c" (some []);
  index = good (index_set [] "debian" "sha256:m" 1);
}

-- The system gives another port when the first one is taken; at last qemu ends and its
-- exit code is written as this text.
abbrev host : String → Host
host text = record {
  home = some "/root";
  has_layout = true;
  directory = λ path. (no_config, []);
  registry = record { pull = λ reference. none; push = λ reference upload. false };
  scratch = "/tmp/run";
  outside = outside;
  changes =
      (λ o. o)
      ∷ (λ o. o)
      ∷ (λ o. o)
      ∷ (λ o. o)
      ∷ (λ o. o)
      ∷ (λ o. o)
      ∷ (λ o. o)
      ∷ (λ o. o)
      ∷ (λ o. record o { free_port = some 5001 })
      ∷ (λ o. o)
      ∷ (λ o. o)
      ∷ (λ o. o)
      ∷ (λ o. o)
      ∷ (λ o. record o { files = update o.files "qemu.exit-code" (some text); has_ended = true })
      ∷ [];
  texts = record {
    io_text = "io";
    json_text = "json";
    registry_text = "registry";
    task_text = "task";
    reference_text = λ reference. reference;
  };
}

none-ne-some : {b : Bytes} → ◌≡◌ {A = Option Bytes} none (some b) → ⊥
none-ne-some h = cc

main-IsSound_example :
    let w' = (main json crates (host "") 1 2 (image_load "/image" none) nothing).1 in
    IsSound crates w' × KeepsBlobs nothing w'
main-IsSound_example =
    main-IsSound crates json (host "") 1 2 (image_load "/image" none) nothing
      (record { at = λ n b h. absurd (none-ne-some h) })

abbrev machine : QemuMachine
machine = record {
  name = none;
  dir = "/tmp/run";
  arch = Architecture.amd64;
  settings = record { cpu = 2; ram = 2; port_forwards = (2222, 22) ∷ [] };
  disk = root_disk;
  boot = linux direct_boot;
  qga = false;
}

abbrev made : World
made = record stored { exported = update nothing.exported "config.json" (some []) }

cmd_run-machine :
    cmd_run json crates (host "").registry "debian" "/tmp/run" 2222 stored ≡ (ok machine, made)
unfolding cmd_run contains materialize make_machine fetch read_index read_blob is_absent parse_index
    blob_path found copy_out sha256_hex strip_sha256 safe_component digest_of export_titles
    insert_titles ◌>>=◌ access outcome step index_lookup is_tagged index_set get components segments
    push_segment path_components later_components segment_component strip_prefix make_with
    choose_boot find settings guest_port supports create machine_of find_disk qemu_boot
cmd_run-machine = ap (λ r. (make_from json "/tmp/run" 2222 r, made)) from_json-image

abbrev up : String → Vm.World
up text = (start 1 (fresh machine (host text).outside (host text).changes)).1

booted : (text : String) → Booted json crates (host text) "debian" 2222 1 stored
unfolding fresh open_storage access outcome step start ◌>>=◌ start_new remove_files remove_file
    modify start_ports free_port look write_file spawn act
booted text = record {
  home = "/root";
  opened_in = stored;
  made_in = made;
  machine = machine;
  started = up text;
  is_home = refl;
  opens = refl;
  makes = cmd_run-machine;
  starts = refl;
}

booted-Ends :
    (text : String) (status : ℕ)
    → exit_of (parse_i32 (trim (codes text))) ≡ some status
    → Ends status (booted text).started.changes (booted text).started.outside
unfolding booted fresh start ◌>>=◌ start_new remove_files remove_file modify start_ports free_port
    look write_file spawn act
booted-Ends text status h = (
  record { told = inl refl; kept = λ e. cc; holds = refl },
  (λ e. e),
  (
    record { told = inl refl; kept = λ e. cc; holds = refl },
    (λ e. cc),
    (record { told = inr h; kept = λ e. h; holds = refl }, refl),
  ),
)

main-exit_text_example :
    (main json crates (host "3\n") 1 2 (machine_run "debian" 2222) stored).0
    ≡ some (record { code = 3; line = none })
unfolding booted fresh start ◌>>=◌ start_new remove_files remove_file modify start_ports free_port
    look write_file spawn act exit_text decimal
main-exit_text_example =
    main-exit_text json crates (host "3\n") "debian" 2222 1 3 0 stored (booted "3\n") (omega arith)
      (
        record { told = inl refl; kept = λ e. cc; holds = refl },
        (λ e. e),
        (
          record { told = inl refl; kept = λ e. cc; holds = refl },
          (λ e. cc),
          (record { told = inr (inr refl); kept = λ e. refl; holds = refl }, refl),
        ),
      )

ends_well :
    (main json crates (host "0\n") 1 2 (machine_run "debian" 2222) stored).0
    ≡ some (record { code = 0; line = none })
unfolding trim is_whitespace parse_i32 parse_unsigned parse_u64_codes bits32 from_code code
ends_well =
    main-Ends json crates (host "0\n") "debian" 2222 1 0 0 stored (booted "0\n")
      (booted-Ends "0\n" 0 refl)

main-zero_example :
    (b : Booted json crates (host "0\n") "debian" 2222 1 stored) × (status : ℕ) × ((wait 2
        b.started).0
      ≡ ok status)
    × (code status ≡ some 0)
main-zero_example =
    main-zero json crates (host "0\n") "debian" 2222 1 2 stored (record { code = 0; line = none })
      ends_well refl
