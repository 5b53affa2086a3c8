-- ===== src/Vmm/Qemu/Qmp.antt =====
-- The control channel of crates/mirum-vm-vmm/src/backend/qemu/qmp.rs: the messages that qemu has sent
-- are the lines that are left to read; what is written to it is left out.
use mirum.Base.{
  String, ◌<>◌, Bool, true, false, ◌||◌, Option, none, some, List, [], ◌∷◌, ◌++◌, ◌≡◌, refl, ap,
  All, Result, ok, err, is_some, if◌then◌else◌,
}
use mirum.Base.Text.{is_blank}
use mirum.Base.Exec.{Exec, continue, lift, ◌>>=◌}
use mirum.Hmi.Json.{Json}
use mirum.Vmm.Types.{Error, invalid_state}

pub data Status : Type 0 where
  running paused transitional : Status

-- The rest of `serde_json` that the channels use: `from_str` of a trimmed line, and `Display`.
pub record Wire (J : Json) : Type 0 where
  pub from_str : String → Option J.Value
  pub to_text : J.Value → String

module _ (J : Json) (W : Wire J) where
  open J use {Value, get, as_str}

  -- A message that `read_message` skips: a blank line, or an event.
  is_event : Option Value → Bool
  is_event none = false
  is_event (some value) = is_some (get value "event")

  unfoldable pub is_skipped : String → Bool
  unfolding is_event
  is_skipped line = is_blank line || is_event (W.from_str line)

  unfoldable pub parse_message : Option Value → Result Error Value
  parse_message none = err (invalid_state "invalid qmp message")
  parse_message (some value) = ok value

  -- Every round takes a line; at the end of the lines qemu has closed the connection.
  unfoldable pub read_message : Exec (List String) Error Value
  unfolding is_skipped parse_message
  read_message [] = (err (invalid_state "qmp connection closed"), [])
  read_message (line ∷ lines) =
      let later = read_message lines in
      if is_skipped line then later else (parse_message (W.from_str line), lines)

  -- What `execute` makes of the response.
  unfoldable pub response : String → Value → Option Value → Option Value → Result Error Value
  response command value (some error) r =
      err (invalid_state ("qmp '" <> command <> "' failed: " <> W.to_text error))
  response command value none none =
      err (invalid_state ("qmp '" <> command <> "' response has no return value"))
  response command value none (some r) = ok r

  unfoldable pub execute : String → Exec (List String) Error Value
  execute command = do
    value ← read_message
    lift (response command value (get value "error") (get value "return"))

  pub read_message-skipped :
      (noise : List String) (line : String) (lines : List String) (value : Value)
      → All (λ l. is_skipped l ≡ true) noise
      → is_skipped line ≡ false
      → W.from_str line ≡ some value
      → read_message (noise ++ line ∷ lines) ≡ (ok value, lines)
  unfolding read_message
  read_message-skipped [] line lines value h k p = rw (k, p) refl
  read_message-skipped (l ∷ noise) line lines value h k p =
      rw h.0 (read_message-skipped noise line lines value h.1 k p)

  -- However many blank lines and events come first, `execute` answers with the first message that is
  -- neither, and leaves the lines after it to be read: the result if there is no error in it, and
  -- otherwise a failure that names the error; a message with neither is a failure too.
  pub execute-skipped :
      (command : String) (noise : List String) (line : String) (lines : List String) (value : Value)
      → All (λ l. is_skipped l ≡ true) noise
      → is_skipped line ≡ false
      → W.from_str line ≡ some value
      → execute command (noise ++ line ∷ lines)
        ≡ (response command value (get value "error") (get value "return"), lines)
  unfolding execute ◌>>=◌
  execute-skipped command noise line lines value h k p =
      ap (λ r. continue r.0 (λ v. lift (response command v (get v "error") (get v "return"))) r.1)
        (read_message-skipped noise line lines value h k p)
