-- ===== src/Vmm/Qemu/Lifecycle/Written.antt =====
-- What the wrapper of crates/mirum-vm-vmm/src/backend/qemu/supervise.rs and `start` write is what the
-- machine reads back in backend/qemu/mod.rs.
use mirum.Base.{
  ℕ, ◌*◌, ◌^◌, ◌<◌, String, ◌<>◌, ◌≡◌, ap, ◌∙◌, ◌⊎◌, inl, inr, Bool, true, false, none, some, List,
  [], ◌∷◌, Result, ok, arith, update, eq_iff,
}
use mirum.Base.Exec.{continue, raise, ◌>>=◌, pure}
use mirum.Base.Text.{codes-append}
use mirum.Base.Words.{trim, parse_i32, parse_unsigned}
use mirum.Base.Decimal.{decimal}
use mirum.Base.Decimal.Printed.{trim-decimal, parse_unsigned-decimal, parse_i32-decimal}
use mirum.Vmm.Types.{invalid_state}
use mirum.Vmm.Qemu.Qga.{bits32, from_code, code}
use mirum.Vmm.Qemu.Outside.{
  Outside, World, Stop, failed, V, pass, store, look, read_file, write_file,
}
use mirum.Vmm.Qemu.Lifecycle.{exit_of, parse_with, read_port, port_of, found}
use mirum.Vmm.Qemu.Lifecycle.Waits.{status_in, Keeps, Ends}

-- `echo $?`
unfoldable pub exit_text : ℕ → String
exit_text n = decimal n <> "\n"

-- The shell has not opened the file, has opened it, or has written it; and this when it has ended; and
-- waiting for it does not fail.
pub record Writes (n : ℕ) (o : Outside) : Type 0 where
  pub told :
      (o.files "qemu.exit-code" ≡ none)
      ⊎ (o.files "qemu.exit-code" ≡ some "")
      ⊎ (o.files "qemu.exit-code" ≡ some (exit_text n))
  pub kept : o.has_ended ≡ true → o.files "qemu.exit-code" ≡ some (exit_text n)
  pub holds : o.wait_fails ≡ false

-- At the end of the changes the wrapper has ended.
abbrev pub EndsWith : ℕ → List (Outside → Outside) → Outside → Type 0
EndsWith n [] o = Writes n o × (o.has_ended ≡ true)
EndsWith n (change ∷ changes) o =
    Writes n o × (o.has_ended ≡ true → (change o).has_ended ≡ true) × EndsWith n changes (change o)

exit_of-exit_text :
    (n : ℕ) → n < 256 → exit_of (parse_with parse_i32 (some (exit_text n))) ≡ some (n * 256)
unfolding exit_text bits32 from_code
exit_of-exit_text n h =
    ap (λ l. exit_of (parse_i32 (trim l))) (codes-append (decimal n) "\n")
    ∙ ap (λ l. exit_of (parse_i32 l)) (trim-decimal n).1
    ∙ ap exit_of (parse_i32-decimal n (omega (arith, h)))
    ∙ ground (arith, h)

pub code-exit : (n : ℕ) → n < 256 → code (n * 256) ≡ some n
unfolding code
code-exit n h = ground (arith, h)

Writes-Keeps : (n : ℕ) (o : Outside) → n < 256 → Writes n o → Keeps (n * 256) o
unfolding trim parse_i32
Writes-Keeps n o h w = record { told = told w.told; kept = λ e. read (w.kept e); holds = w.holds }
  where
    read : o.files "qemu.exit-code" ≡ some (exit_text n) → status_in o ≡ some (n * 256)
    read e = ap (λ f. exit_of (parse_with parse_i32 f)) e ∙ exit_of-exit_text n h

    told :
        (o.files "qemu.exit-code" ≡ none)
          ⊎ (o.files "qemu.exit-code" ≡ some "")
          ⊎ (o.files "qemu.exit-code" ≡ some (exit_text n))
        → (status_in o ≡ none) ⊎ (status_in o ≡ some (n * 256))
    told (inl e) = inl (ap (λ f. exit_of (parse_with parse_i32 f)) e)
    told (inr (inl e)) = inl (ap (λ f. exit_of (parse_with parse_i32 f)) e)
    told (inr (inr e)) = inr (read e)

pub EndsWith-Ends :
    (n : ℕ) (changes : List (Outside → Outside)) (o : Outside)
    → n < 256
    → EndsWith n changes o
    → Ends (n * 256) changes o
EndsWith-Ends n [] o h e = (Writes-Keeps n o h e.0, e.1)
EndsWith-Ends n (change ∷ changes) o h e =
    (Writes-Keeps n o h e.0, e.1, EndsWith-Ends n changes (change o) h e.2)

-- A port that is written to its file is read back, when the file can be written and nothing else
-- changes.
pub read_port-write_file :
    (file name : String) (port : ℕ) (w : World)
    → port < 2 ^ 16
    → w.changes ≡ []
    → w.outside.is_writable ≡ true
    → ((write_file file (decimal port) >>= λ u. read_port file name) w).0 ≡ ok port
unfolding write_file read_port read_file look ◌>>=◌ continue pure raise
read_port-write_file file name port w h e k =
    ap (λ l. answer l (pass l w).outside.is_writable) e
    ∙ ap (answer []) k
    ∙ ap (λ l. (port_of name ((pass l stored).outside.files file) (pass l stored)).0) e
    ∙ ap (λ o. (port_of name o stored).0) there
    ∙ ap (λ l. (found (parse_unsigned (2 ^ 16) l) wrong stored).0) (trim-decimal port).0
    ∙ ap (λ o. (found o wrong stored).0) (parse_unsigned-decimal (2 ^ 16) port h (omega (arith, h)))
  where
    wrong : V ℕ
    wrong = raise (failed (invalid_state ("invalid " <> name <> " port contents")))

    stored : World
    stored = record w {
      outside = record w.outside { files = update w.outside.files file (some (decimal port)) };
    }

    there : stored.outside.files file ≡ some (decimal port)
    there = ground (arith, eq_iff file file)

    answer : List (Outside → Outside) → Bool → Result Stop ℕ
    answer l b =
        (continue (store file (decimal port) b (pass l w)).0 (λ u. read_port file name)
          (store file (decimal port) b (pass l w)).1).0
