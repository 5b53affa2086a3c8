-- ===== src/Base/Words.antt =====
-- More of Rust's standard library on texts, as lists of code points: `trim`, `split_whitespace`,
-- `rsplit_once`, `lines`, and `parse` of integers of a width.
use Prim.Native.Nat.{ℕ, zero, suc}
use mathlib.Core.Bool.{Bool, true}
use mathlib.Core.Option.{Option, none, some}
use mathlib.Core.List.{List, [], ◌∷◌}
use mirum.Base.Tests.{◌==◌, ltb, if◌then◌else◌}
use mirum.Base.Integer.{ℤ, pos, negsuc}
use mirum.Base.Text.{is_whitespace}
use mirum.Base.Decimal.{parse_u64_codes, scan_u64}

-- A character in front of words, the first of which may still grow.
abbrev pub grow : ℕ → Bool → List (List ℕ) → List (List ℕ)
grow c starts [] = (c ∷ []) ∷ []
grow c starts (w ∷ ws) = if starts then (c ∷ []) ∷ w ∷ ws else (c ∷ w) ∷ ws

abbrev pub starts_blank : List ℕ → Bool
starts_blank [] = true
starts_blank (c ∷ cs) = is_whitespace c

unfoldable pub split_whitespace : List ℕ → List (List ℕ)
unfolding is_whitespace
split_whitespace [] = []
split_whitespace (c ∷ cs) =
    let rest = split_whitespace cs in
    if is_whitespace c then rest else grow c (starts_blank cs) rest

abbrev pub trim_start : List ℕ → List ℕ
trim_start [] = []
trim_start (c ∷ cs) = let rest = trim_start cs in if is_whitespace c then rest else c ∷ cs

abbrev pub put_end : ℕ → List ℕ → List ℕ
put_end c [] = if is_whitespace c then [] else c ∷ []
put_end c (d ∷ ds) = c ∷ d ∷ ds

abbrev pub trim_end : List ℕ → List ℕ
trim_end [] = []
trim_end (c ∷ cs) = put_end c (trim_end cs)

unfoldable pub trim : List ℕ → List ℕ
trim cs = trim_end (trim_start cs)

-- `s.rsplit_once(c)` without the part before the last `c`.
abbrev pub or_else : Option (List ℕ) → Option (List ℕ) → Option (List ℕ)
or_else none b = b
or_else (some a) b = some a

unfoldable pub after_last : ℕ → List ℕ → Option (List ℕ)
after_last c [] = none
after_last c (d ∷ ds) = or_else (after_last c ds) (if d == c then some ds else none)

-- `str::parse` of an unsigned integer below the limit, which is at most 2 ^ 64.
abbrev pub below : ℕ → Option ℕ → Option ℕ
below limit none = none
below limit (some n) = if ltb n limit then some n else none

unfoldable pub parse_unsigned : ℕ → List ℕ → Option ℕ
parse_unsigned limit cs = below limit (parse_u64_codes cs)

abbrev negative : Option ℕ → Option ℤ
negative none = none
negative (some zero) = some (pos 0)
negative (some (suc n)) = some (negsuc n)

abbrev pub positive : Option ℕ → Option ℤ
positive none = none
positive (some n) = some (pos n)

-- `str::parse::<i32>`
unfoldable pub parse_i32 : List ℕ → Option ℤ
parse_i32 [] = none
parse_i32 (c ∷ []) = positive (parse_unsigned 2147483648 (c ∷ []))
parse_i32 (c ∷ d ∷ cs) =
    if c == b'-'
    then negative (below 2147483649 (scan_u64 0 (d ∷ cs)))
    else positive (parse_unsigned 2147483648 (c ∷ d ∷ cs))
