-- ===== src/Base/Decimal/Printed.antt =====
-- A number that was printed, with or without a line break behind it, is read back.
use mirum.Base.{
  ℕ, zero, suc, ◌+◌, ◌/◌, ◌%◌, ◌≤◌, ◌<◌, String, ◌≡◌, refl, sym, ap, ◌∙◌, Bool, true, false, some,
  List, [], ◌∷◌, ◌++◌, All, arith, ltb, if◌then◌else◌,
}
use Prim.Native.Char.{code}
use mathlib.Core.List.{append-nil}
use mirum.Base.Integer.{pos}
use mirum.Base.Text.{codes, is_whitespace}
use mirum.Base.Words.{
  trim, trim_start, trim_end, put_end, below, positive, parse_unsigned, parse_i32,
}
use mirum.Base.Decimal.{
  u64_mod, digit, decimal, decimal_loop, code-digit, codes-decimal_loop, parse_u64,
  parse_u64-decimal,
}

abbrev IsDigit : ℕ → Type 0
IsDigit c = (48 ≤ c) × (c ≤ 57)

digit-IsDigit : (n : ℕ) → IsDigit (code (digit (n % 10)))
digit-IsDigit n = let e = code-digit (n % 10) (omega arith) in (omega (arith, e), omega (arith, e))

if-IsDigit :
    (small : Bool) (s t : String)
    → All IsDigit (codes s)
    → All IsDigit (codes t)
    → All IsDigit (codes (if small then s else t))
if-IsDigit true s t h k = h
if-IsDigit false s t h k = k

decimal_loop-IsDigit :
    (f n : ℕ) (out : String) → All IsDigit (codes out) → All IsDigit (codes (decimal_loop f n out))
unfolding decimal_loop
decimal_loop-IsDigit zero n out h = h
decimal_loop-IsDigit (suc f) n out h =
    if-IsDigit (ltb n 10) _ _ (digit-IsDigit n, h)
      (decimal_loop-IsDigit f (n / 10) (String.◌∷◌ (digit (n % 10)) out) (digit-IsDigit n, h))

decimal-IsDigit : (n : ℕ) → All IsDigit (codes (decimal n))
unfolding decimal
decimal-IsDigit n = decimal_loop-IsDigit (suc n) n "" tt

not_whitespace : (c : ℕ) → IsDigit c → is_whitespace c ≡ false
unfolding is_whitespace
not_whitespace c h = ground (arith, h)

-- What is trimmed away behind digits.
trim_end-digits :
    (l after : List ℕ) → All IsDigit l → trim_end after ≡ [] → trim_end (l ++ after) ≡ l
trim_end-digits [] after h e = e
trim_end-digits (c ∷ l) after h e =
    ap (put_end c) (trim_end-digits l after h.1 e) ∙ last l (not_whitespace c h.0)
  where
    last : (l : List ℕ) → is_whitespace c ≡ false → put_end c l ≡ c ∷ l
    last [] k = ap (λ b. if b then [] else c ∷ []) k
    last (d ∷ l) k = refl

trim-digits :
    (l after : List ℕ)
    → All IsDigit l
    → trim after ≡ []
    → trim_end after ≡ []
    → trim (l ++ after) ≡ l
unfolding trim
trim-digits [] after h t e = t
trim-digits (c ∷ l) after h t e =
    ap (λ b. trim_end (if b then trim_start (l ++ after) else c ∷ (l ++ after)))
      (not_whitespace c h.0)
    ∙ trim_end-digits (c ∷ l) after h e

pub trim-decimal :
    (n : ℕ)
    → (trim (codes (decimal n)) ≡ codes (decimal n))
      × (trim (codes (decimal n) ++ b'\n' ∷ []) ≡ codes (decimal n))
unfolding trim is_whitespace
trim-decimal n = (
  ap trim (sym (append-nil (codes (decimal n))))
      ∙ trim-digits (codes (decimal n)) [] (decimal-IsDigit n) refl refl,
  trim-digits (codes (decimal n)) (b'\n' ∷ []) (decimal-IsDigit n) refl refl,
)

pub parse_unsigned-decimal :
    (limit n : ℕ) → n < limit → n < u64_mod → parse_unsigned limit (codes (decimal n)) ≡ some n
unfolding parse_unsigned parse_u64
parse_unsigned-decimal limit n h k = ap (below limit) (parse_u64-decimal n k) ∙ ground (arith, h)

-- A text that begins with a digit has no sign.
parse_i32-digit :
    (d : ℕ) (cs : List ℕ)
    → d < 10
    → parse_i32 ((48 + d) ∷ cs) ≡ positive (parse_unsigned 2147483648 ((48 + d) ∷ cs))
unfolding parse_i32
parse_i32-digit d [] h = refl
parse_i32-digit d (c ∷ cs) h = ground (arith, h)

pub parse_i32-decimal : (n : ℕ) → n < 2147483648 → parse_i32 (codes (decimal n)) ≡ some (pos n)
unfolding decimal
parse_i32-decimal n h =
    let (d, s, small, shape) = codes-decimal_loop (suc n) n "" (omega arith) in
    ap parse_i32 shape
    ∙ parse_i32-digit d (codes s) small
    ∙ ap (λ l. positive (parse_unsigned 2147483648 l)) (sym shape)
    ∙ ap positive (parse_unsigned-decimal 2147483648 n h (omega (arith, h)))
