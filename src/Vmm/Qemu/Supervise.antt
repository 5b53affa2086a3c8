-- ===== src/Vmm/Qemu/Supervise.antt =====
-- crates/mirum-vm-vmm/src/backend/qemu/supervise.rs on Linux: the arguments of the wrapper, and what is
-- read from the two files of a process. A sum or a product that does not fit wraps around.
pub mod Fields
use mirum.Base.{
  ℕ, zero, suc, ◌+◌, ◌*◌, ◌%◌, ◌^◌, String, Bool, Option, none, some, List, [], ◌∷◌, ◌++◌, Result,
  ok, err, ◌>>=◌, ok_or, ◌==◌, if◌then◌else◌,
}
use mirum.Base.Text.{codes}
use mirum.Base.Words.{split_whitespace, after_last, parse_unsigned}
use mirum.Vmm.Types.{Error, io}

-- The arguments of `sh`; without a program there is a panic.
unfoldable pub wrapper_args : List String → String → Option (List String)
wrapper_args [] exit_code_file = none
wrapper_args (bin ∷ args) exit_code_file = some (
    "-c" ∷ "bin=\"$1\"; shift; exitfile=\"$1\"; shift; \"$bin\" \"$@\"; echo $? > \"$exitfile\""
    ∷ "sh" ∷ bin ∷ exit_code_file ∷ args)

abbrev pub get : ℕ → List (List ℕ) → Option (List ℕ)
get n [] = none
get zero (x ∷ l) = some x
get (suc n) (x ∷ l) = get n l

abbrev parse_word : Option (List ℕ) → Option ℕ
parse_word none = none
parse_word (some word) = parse_unsigned (2 ^ 64) word

unfoldable pub field : List (List ℕ) → ℕ → Result Error ℕ
field fields i = ok_or (parse_word (get i fields)) io

-- `text.strip_prefix(p)` of code points, the prefix first.
abbrev strip : List ℕ → List ℕ → Option (List ℕ)
strip [] l = some l
strip (p ∷ ps) [] = none
strip (p ∷ ps) (c ∷ l) = let rest = strip ps l in if p == c then rest else none

-- A character in front of lines.
abbrev push_line : ℕ → List (List ℕ) → List (List ℕ)
push_line c [] = (c ∷ []) ∷ []
push_line c (l ∷ ls) = (c ∷ l) ∷ ls

-- `lines`, without the case of a carriage return.
abbrev lines : List ℕ → List (List ℕ)
lines [] = []
lines (c ∷ cs) = let rest = lines cs in if c == 10 then [] ∷ rest else push_line c rest

abbrev find_line : List ℕ → List (List ℕ) → Option (List ℕ)
find_line prefix [] = none
find_line prefix (l ∷ ls) = elim (strip prefix l) [
  | none ↦ find_line prefix ls
  | some rest ↦ some rest
]

abbrev first_word : Option (List ℕ) → Option (List ℕ)
first_word none = none
first_word (some rest) = get 0 (split_whitespace rest)

-- The time in nanoseconds, of the text of `/proc/…/stat`.
unfoldable pub cpu_time : List ℕ → Result Error ℕ
cpu_time stat = do
  after_comm ← ok_or (after_last b')' stat) io
  let fields = split_whitespace after_comm
  utime ← field fields 11
  stime ← field fields 12
  ok (((utime + stime) * 10000000) % 2 ^ 64)

-- The memory in bytes, of the text of `/proc/…/status`.
unfoldable pub memory : List ℕ → Result Error ℕ
memory status = do
  kb ← ok_or (parse_word (first_word (find_line (codes "VmRSS:") (lines status)))) io
  ok ((kb * 1024) % 2 ^ 64)

-- The two files of a process, if they can be read.
unfoldable pub read_time : Option String → Result Error ℕ
read_time stat = ok_or stat io >>= λ text. cpu_time (codes text)

unfoldable pub read_memory : Option String → Result Error ℕ
read_memory status = ok_or status io >>= λ text. memory (codes text)
