-- ===== src/Base/Decimal.antt =====
-- `to_string` of an unsigned integer, and `str::parse::<u64>`.
pub mod Printed
use Prim.Native.Nat.{ℕ, zero, suc, ◌+◌, ◌-◌, ◌*◌, ◌/◌, ◌%◌, ◌^◌, ◌<◌}
use Prim.Native.String.{String}
use mathlib.Core.Path.{◌≡◌, refl, sym, ap, ◌∙◌}
use mathlib.Core.Logic.{inl, inr}
use mathlib.Core.Bool.{◌&&◌}
use mathlib.Core.Option.{Option, none, some}
use mathlib.Core.List.{List, [], ◌∷◌}
use native.Mathlib.Omega.{arith}
use mirum.Base.Tests.{◌==◌, ltb, leb, if◌then◌else◌, Bool-cases}
use Prim.Native.Char.{Char, code}
use mirum.Base.Text.{codes}

abbrev pub u64_mod : ℕ
u64_mod = 2 ^ 64

digit : ℕ → Char
digit zero = "0"
digit (suc zero) = "1"
digit (suc (suc zero)) = "2"
digit (suc (suc (suc zero))) = "3"
digit (suc (suc (suc (suc zero)))) = "4"
digit (suc (suc (suc (suc (suc zero))))) = "5"
digit (suc (suc (suc (suc (suc (suc zero)))))) = "6"
digit (suc (suc (suc (suc (suc (suc (suc zero))))))) = "7"
digit (suc (suc (suc (suc (suc (suc (suc (suc zero)))))))) = "8"
digit _ = "9"

-- The last digit goes in front of those written so far. The fuel is more than the number, which
-- each round divides by ten.
decimal_loop : ℕ → ℕ → String → String
decimal_loop zero n out = out
decimal_loop (suc f) n out =
    let out' = String.◌∷◌ (digit (n % 10)) out in
    let rest = decimal_loop f (n / 10) out' in if ltb n 10 then out' else rest

unfoldable pub decimal : ℕ → String
unfolding decimal_loop digit
decimal n = decimal_loop (suc n) n ""

-- A number that does not fit in 64 bits is an error, and so is any other character.
unfoldable pub scan_u64 : ℕ → List ℕ → Option ℕ
scan_u64 acc [] = some acc
scan_u64 acc (c ∷ cs) =
    let next = acc * 10 + (c - 48) in
    let rest = scan_u64 next cs in if leb 48 c && leb c 57 && ltb next u64_mod then rest else none

-- One leading plus sign is accepted, and a text without digits is an error.
unfoldable pub parse_u64_codes : List ℕ → Option ℕ
unfolding scan_u64
parse_u64_codes [] = none
parse_u64_codes (c ∷ []) = scan_u64 0 (c ∷ [])
parse_u64_codes (c ∷ d ∷ cs) = if c == b'+' then scan_u64 0 (d ∷ cs) else scan_u64 0 (c ∷ d ∷ cs)

unfoldable pub parse_u64 : String → Option ℕ
unfolding parse_u64_codes
parse_u64 s = parse_u64_codes (codes s)

decimal_example : decimal 268435456 ≡ "268435456"
unfolding decimal
decimal_example = refl

parse_u64_example :
    (parse_u64 "+7" ≡ some 7)
    × (parse_u64 "+" ≡ none)
    × (parse_u64 "18446744073709551616" ≡ none)
    × (parse_u64 "18446744073709551615" ≡ some 18446744073709551615)
unfolding parse_u64
parse_u64_example = (refl, refl, refl, refl)

code-digit : (d : ℕ) → d < 10 → code (digit d) ≡ 48 + d
unfolding digit
code-digit zero h = refl
code-digit (suc zero) h = refl
code-digit (suc (suc zero)) h = refl
code-digit (suc (suc (suc zero))) h = refl
code-digit (suc (suc (suc (suc zero)))) h = refl
code-digit (suc (suc (suc (suc (suc zero))))) h = refl
code-digit (suc (suc (suc (suc (suc (suc zero)))))) h = refl
code-digit (suc (suc (suc (suc (suc (suc (suc zero))))))) h = refl
code-digit (suc (suc (suc (suc (suc (suc (suc (suc zero)))))))) h = refl
code-digit (suc (suc (suc (suc (suc (suc (suc (suc (suc n))))))))) h =
    let e : n ≡ 0 = omega arith in rw e

scan_u64-digit :
    (n d : ℕ) (cs : List ℕ)
    → d < 10
    → n * 10 + d < u64_mod
    → scan_u64 n ((48 + d) ∷ cs) ≡ scan_u64 (n * 10 + d) cs
unfolding scan_u64
scan_u64-digit n d cs h k = let e : 48 + d - 48 ≡ d = omega arith in rw (e, scan_u64) (ground arith)

-- One round of the loop is undone by one step of the scan.
scan_u64-digit_out :
    (n : ℕ) (out : String)
    → n < u64_mod
    → scan_u64 (n / 10) (codes (String.◌∷◌ (digit (n % 10)) out)) ≡ scan_u64 n (codes out)
scan_u64-digit_out n out k =
    let e : n / 10 * 10 + n % 10 ≡ n = omega arith in
    rw (ap (λ c. c ∷ codes out) (code-digit (n % 10) (omega arith))) (
      scan_u64-digit (n / 10) (n % 10) (codes out) (omega arith) (omega arith)
      ∙ ap (λ m. scan_u64 m (codes out)) e)

scan_u64-decimal_loop :
    (f n : ℕ) (out : String)
    → n < f
    → n < u64_mod
    → scan_u64 0 (codes (decimal_loop f n out)) ≡ scan_u64 n (codes out)
unfolding decimal_loop
scan_u64-decimal_loop zero n out h k = absurd (omega arith)
scan_u64-decimal_loop (suc f) n out h k = elim (Bool-cases (ltb n 10)) [
  | inl small ↦
      let e : n / 10 ≡ 0 = ground arith in
      rw small (
        ap (λ m. scan_u64 m (codes (String.◌∷◌ (digit (n % 10)) out))) (sym e)
        ∙ scan_u64-digit_out n out k)
  | inr large ↦ rw large (
      scan_u64-decimal_loop f (n / 10) (String.◌∷◌ (digit (n % 10)) out) (ground arith)
        (omega arith)
      ∙ scan_u64-digit_out n out k)
]

codes-decimal_loop :
    (f n : ℕ) (out : String)
    → n < f
    → (d : ℕ) × (s : String) × (d < 10) × (codes (decimal_loop f n out) ≡ (48 + d) ∷ codes s)
unfolding decimal_loop
codes-decimal_loop zero n out h = absurd (omega arith)
codes-decimal_loop (suc f) n out h = elim (Bool-cases (ltb n 10)) [
  | inl small ↦
      rw small
        (n % 10, out, omega arith, ap (λ c. c ∷ codes out) (code-digit (n % 10) (omega arith)))
  | inr large ↦
      rw large (codes-decimal_loop f (n / 10) (String.◌∷◌ (digit (n % 10)) out) (ground arith))
]

-- A text that begins with a digit has no sign to strip.
parse_u64_codes-digit :
    (d : ℕ) (cs : List ℕ) → d < 10 → parse_u64_codes ((48 + d) ∷ cs) ≡ scan_u64 0 ((48 + d) ∷ cs)
unfolding parse_u64_codes
parse_u64_codes-digit d [] h = refl
parse_u64_codes-digit d (c ∷ cs) h = ground arith

parse_u64_codes-eq-scan_u64 :
    (l : List ℕ) (d : ℕ) (cs : List ℕ)
    → d < 10
    → l ≡ (48 + d) ∷ cs
    → parse_u64_codes l ≡ scan_u64 0 l
parse_u64_codes-eq-scan_u64 l d cs h e = rw e (parse_u64_codes-digit d cs h)

-- Parsing what was printed gives the number back, for every 64-bit number.
pub parse_u64-decimal : (n : ℕ) → n < u64_mod → parse_u64 (decimal n) ≡ some n
unfolding parse_u64 decimal
parse_u64-decimal n h =
    let shape = codes-decimal_loop (suc n) n "" (omega arith) in
    parse_u64_codes-eq-scan_u64 _ shape.0 (codes shape.1) shape.2 shape.3
    ∙ scan_u64-decimal_loop (suc n) n "" (omega arith) h
