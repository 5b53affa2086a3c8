-- ===== src/Server/Lowercase.antt =====
-- `str::to_ascii_lowercase`.
use Prim.Native.Char.{Char, code}
use Prim.Native.String.{String}
use mirum.Base.{
  ℕ, zero, suc, ◌-◌, ◌≤◌, ◌≡◌, refl, ap, Bool, true, false, ◌&&◌, ◌||◌, arith, and_iff, all, length,
  leb, ◌==◌, if◌then◌else◌,
}
use mirum.Base.Text.{codes, is_ascii_hexdigit}

letter : ℕ → Char
letter zero = "a"
letter (suc zero) = "b"
letter (suc (suc zero)) = "c"
letter (suc (suc (suc zero))) = "d"
letter (suc (suc (suc (suc zero)))) = "e"
letter (suc (suc (suc (suc (suc zero))))) = "f"
letter (suc (suc (suc (suc (suc (suc n)))))) =
    if n == 0
    then "g"
    else if n == 1
    then "h"
    else if n == 2
    then "i"
    else if n == 3
    then "j"
    else if n == 4
    then "k"
    else if n == 5
    then "l"
    else if n == 6
    then "m"
    else if n == 7
    then "n"
    else if n == 8
    then "o"
    else if n == 9
    then "p"
    else if n == 10
    then "q"
    else if n == 11
    then "r"
    else if n == 12
    then "s"
    else if n == 13
    then "t"
    else if n == 14
    then "u"
    else if n == 15
    then "v"
    else if n == 16
    then "w"
    else if n == 17
    then "x"
    else if n == 18
    then "y"
    else "z"

lower_char : Char → Char
unfolding letter
lower_char c = if leb b'A' (code c) && leb (code c) b'Z' then letter (code c - b'A') else c

unfoldable pub to_ascii_lowercase : String → String
unfolding lower_char
to_ascii_lowercase String.[] = String.[]
to_ascii_lowercase (String.◌∷◌ c s) = String.◌∷◌ (lower_char c) (to_ascii_lowercase s)

pub length-to_ascii_lowercase :
    (s : String) → length (codes (to_ascii_lowercase s)) ≡ length (codes s)
unfolding to_ascii_lowercase
length-to_ascii_lowercase String.[] = refl
length-to_ascii_lowercase (String.◌∷◌ c s) = ap suc (length-to_ascii_lowercase s)

-- `0` to `9` and `a` to `f`.
abbrev pub is_lower_hexdigit : ℕ → Bool
is_lower_hexdigit c = leb b'0' c && leb c b'9' || leb b'a' c && leb c b'f'

letter-hexdigit : (n : ℕ) → n ≤ 5 → is_lower_hexdigit (code (letter n)) ≡ true
unfolding letter
letter-hexdigit zero h = refl
letter-hexdigit (suc zero) h = refl
letter-hexdigit (suc (suc zero)) h = refl
letter-hexdigit (suc (suc (suc zero))) h = refl
letter-hexdigit (suc (suc (suc (suc zero)))) h = refl
letter-hexdigit (suc (suc (suc (suc (suc zero))))) h = refl
letter-hexdigit (suc (suc (suc (suc (suc (suc n)))))) h = absurd (omega (arith, h))

lower_char-hexdigit :
    (c : Char) → is_ascii_hexdigit (code c) ≡ true → is_lower_hexdigit (code (lower_char c)) ≡ true
unfolding lower_char is_ascii_hexdigit
lower_char-hexdigit c h = go (leb b'A' (code c) && leb (code c) b'Z') refl
  where
    go :
        (s : Bool)
        → (leb b'A' (code c) && leb (code c) b'Z') ≡ s
        → is_lower_hexdigit (code (if s then letter (code c - b'A') else c)) ≡ true
    go true e = letter-hexdigit (code c - b'A') (ground (arith, h, e))
    go false e = ground (arith, h, e)

pub to_ascii_lowercase-hexdigit :
    (s : String)
    → all is_ascii_hexdigit (codes s) ≡ true
    → all is_lower_hexdigit (codes (to_ascii_lowercase s)) ≡ true
unfolding to_ascii_lowercase
to_ascii_lowercase-hexdigit String.[] h = refl
to_ascii_lowercase-hexdigit (String.◌∷◌ c s) h =
    let both = (and_iff (is_ascii_hexdigit (code c)) _).0 h in
    (and_iff (is_lower_hexdigit (code (lower_char c))) _).1
      (lower_char-hexdigit c both.0, to_ascii_lowercase-hexdigit s both.1)
