-- ===== src/Vmm/Qemu/Qga.antt =====
-- The answers of the guest agent, crates/mirum-vm-vmm/src/backend/qemu/qga.rs. `ExitStatus` of Rust's
-- standard library on Unix is its wait status, 32 bits; an `i64` is an integer.
pub mod Polls
use mirum.Base.{
  ℕ, ℤ, pos, negsuc, ◌-◌, ◌*◌, ◌/◌, ◌%◌, ◌<◌, String, ◌<>◌, ◌≡◌, Bool, false, Option, none, some,
  [], arith, Result, ok, err, ◌>>=◌, ok_or, ◌==◌, ltb, ◌=s=◌, if◌then◌else◌,
}
use mirum.Hmi.Json.{Json}
use mirum.Oci.Types.{Bytes}
use mirum.Vmm.Types.{Error, io, invalid_state}

-- What the file uses of `serde_json` and `base64` besides `get` and `as_str`.
pub record Agent (J : Json) : Type 0 where
  pub from_str : String → Option J.Value
  pub to_text : J.Value → String
  pub as_bool : J.Value → Option Bool
  pub as_i64 : J.Value → Option ℤ
  pub decode_base64 : String → Option Bytes

-- `i32::try_from`, as the 32 bits of the number.
unfoldable pub bits32 : ℤ → Option ℕ
bits32 (pos n) = if ltb n 2147483648 then some n else none
bits32 (negsuc n) = if ltb n 2147483648 then some (4294967295 - n) else none

-- `code << 8` and `signal & 0x7f` on these bits.
unfoldable pub from_code : ℕ → ℕ
from_code bits = (bits * 256) % 4294967296

unfoldable pub from_signal : ℕ → ℕ
from_signal bits = bits % 128

-- `ExitStatus::code`.
unfoldable pub code : ℕ → Option ℕ
code status = if status % 128 == 0 then some ((status / 256) % 256) else none

-- How the connection of one `execute` goes: it takes more than five seconds, it is refused, the request
-- is not written, the answer is not read, or a line is read, empty when the agent has closed it.
pub data Exchange : Type 0 where
  timed_out refused unwritten unread : Exchange
  answered : String → Exchange

-- `std::process::Output`.
pub record Output : Type 0 where
  pub status : ℕ
  pub stdout : Bytes
  pub stderr : Bytes

unfoldable pub status_of : Option ℤ → Option ℤ → Result Error ℕ
unfolding from_code from_signal bits32
status_of (some n) signal = do
  bits ← ok_or (bits32 n) (invalid_state "qga returned an invalid exit code")
  ok (from_code bits)
status_of none (some n) = do
  bits ← ok_or (bits32 n) (invalid_state "qga returned an invalid signal")
  ok (from_signal bits)
status_of none none = err (invalid_state "qga exec status has neither exitcode nor signal")

module _ (J : Json) (A : Agent J) where
  open J use {Value, get, as_str}

  -- `status.get(field).and_then(…)`.
  abbrev pub field : {B : Type 0} → (Value → Option B) → Option Value → Option B
  field read none = none
  field read (some value) = read value

  abbrev pub is_true : Option Bool → Bool
  is_true none = false
  is_true (some b) = b

  unfoldable pub return_of : String → Option Value → Option Value → Result Error Value
  return_of command (some error) r =
      err (invalid_state ("qga " <> command <> " failed: " <> A.to_text error))
  return_of command none none =
      err (invalid_state ("qga " <> command <> " response has no return value"))
  return_of command none (some r) = ok r

  unfoldable pub validate_response : String → String → Result Error Value
  validate_response command text = do
    value ← ok_or (A.from_str text) (invalid_state "invalid qga response")
    return_of command (get value "error") (get value "return")

  -- What an `execute` makes of its connection.
  unfoldable pub execute : String → Exchange → Result Error Value
  execute command timed_out = err (invalid_state ("qga " <> command <> " timed out"))
  execute command refused = err io
  execute command unwritten = err io
  execute command unread = err io
  execute command (answered text) =
      if text =s= ""
      then err (invalid_state "qemu-guest-agent closed its channel without replying")
      else validate_response command text

  unfoldable pub exit_status : Value → Result Error ℕ
  exit_status status =
      status_of (field A.as_i64 (get status "exitcode")) (field A.as_i64 (get status "signal"))

  decode_text : String → Option String → Result Error Bytes
  decode_text name none = ok []
  decode_text name (some text) =
      ok_or (A.decode_base64 text) (invalid_state ("invalid qga " <> name))

  unfoldable pub decode : Value → String → Result Error Bytes
  unfolding decode_text
  decode status name = decode_text name (field as_str (get status name))

  unfoldable pub is_truncated : Value → String → Bool
  is_truncated status name = is_true (field A.as_bool (get status name))

  unfoldable pub output : Value → Result Error Output
  output status =
      if is_truncated status "out-truncated"
      then err (invalid_state "qga exec output was truncated (out-truncated)")
      else if is_truncated status "err-truncated"
      then err (invalid_state "qga exec output was truncated (err-truncated)")
      else do
        s ← exit_status status
        out ← decode status "out-data"
        error ← decode status "err-data"
        ok record { status = s; stdout = out; stderr = error }

-- Of every exit code below 2 ^ 31 there is a status, and the exit code that is read from it is the
-- one that the agent gave, modulo 256; so codes up to 255 are read back, and 256 is read as 0.
pub code-status_of :
    (n : ℕ) (signal : Option ℤ)
    → n < 2147483648
    → (status : ℕ) × (status_of (some (pos n)) signal ≡ ok status) × (code status ≡ some (n % 256))
unfolding status_of code from_code bits32
code-status_of n signal h = ((n * 256) % 4294967296, ground (arith, h), ground (arith, h))

-- A process that was ended by a signal between 1 and 127 has the signal as its status and no exit
-- code.
pub code-status_of_signal :
    (n : ℕ) → 0 < n → n < 128 → (status_of none (some (pos n)) ≡ ok n) × (code n ≡ none)
unfolding status_of code from_signal bits32
code-status_of_signal n p q = (ground (arith, p, q), ground (arith, p, q))
