-- ===== src/Vmm/Qemu/Supervise/Fields.antt =====
-- The fields of `/proc/…/stat` that crates/mirum-vm-vmm/src/backend/qemu/supervise.rs reads.
use mirum.Base.{
  ℕ, ◌+◌, ◌*◌, ◌^◌, ◌≡◌, refl, ap, ◌∙◌, true, false, none, some, List, [], ◌∷◌, ◌++◌, ok, All,
  All-append, ◌≢◌, ◌<◌, arith, ◌==◌, if◌then◌else◌,
}
use mirum.Base.Text.{is_whitespace}
use mirum.Base.Words.{split_whitespace, after_last, parse_unsigned, grow, starts_blank, or_else}
use mirum.Vmm.Qemu.Supervise.{get, field, cpu_time}

-- A word: a character at least, none of them white space or a closing parenthesis.
abbrev pub IsWord : List ℕ → Type 0
IsWord word = (word ≢ []) × All (λ c. (is_whitespace c ≡ false) × ((c == b')') ≡ false)) word

-- The fields with a space in front of each.
abbrev pub spaced : List (List ℕ) → List ℕ
spaced [] = []
spaced (f ∷ fs) = b' ' ∷ (f ++ spaced fs)

after_last-none : (l : List ℕ) → All (λ c. (c == b')') ≡ false) l → after_last b')' l ≡ none
unfolding after_last
after_last-none [] h = refl
after_last-none (d ∷ l) h =
    ap (λ o. or_else o (if d == b')' then some l else none)) (after_last-none l h.1)
    ∙ ap (λ b. if b then some l else none) h.0

after_last-found :
    (before l : List ℕ)
    → All (λ c. (c == b')') ≡ false) l
    → after_last b')' (before ++ b')' ∷ l) ≡ some l
unfolding after_last
after_last-found [] l h = ap (λ o. or_else o (some l)) (after_last-none l h)
after_last-found (d ∷ before) l h =
    ap (λ o. or_else o (if d == b')' then some (before ++ b')' ∷ l) else none))
      (after_last-found before l h)

-- One word, before what starts with white space or is over.
split_whitespace-word :
    (c : ℕ) (word rest : List ℕ)
    → is_whitespace c ≡ false
    → All (λ d. (is_whitespace d ≡ false) × ((d == b')') ≡ false)) word
    → starts_blank rest ≡ true
    → split_whitespace ((c ∷ word) ++ rest) ≡ (c ∷ word) ∷ split_whitespace rest
unfolding split_whitespace
split_whitespace-word c [] rest blank h end =
    ap
      (λ b. if b then split_whitespace rest else grow c (starts_blank rest) (split_whitespace rest))
      blank
    ∙ ap (λ b. grow c b (split_whitespace rest)) end
    ∙ alone (split_whitespace rest)
  where
    alone : (l : List (List ℕ)) → grow c true l ≡ (c ∷ []) ∷ l
    alone [] = refl
    alone (w ∷ l) = refl
split_whitespace-word c (d ∷ word) rest blank h end =
    ap
      (λ b.
        (if b
          then split_whitespace (d ∷ (word ++ rest))
          else grow c (is_whitespace d) (split_whitespace (d ∷ (word ++ rest)))))
      blank
    ∙ ap (grow c (is_whitespace d)) (split_whitespace-word d word rest h.0.0 h.1 end)
    ∙ ap (λ b. grow c b ((d ∷ word) ∷ split_whitespace rest)) h.0.0

split_whitespace-spaced :
    (fields : List (List ℕ)) → All IsWord fields → split_whitespace (spaced fields) ≡ fields
unfolding split_whitespace is_whitespace
split_whitespace-spaced [] h = refl
split_whitespace-spaced ([] ∷ fields) h = absurd (h.0.0 refl)
split_whitespace-spaced ((c ∷ word) ∷ fields) h =
    split_whitespace-word c word (spaced fields) h.0.1.0.0 h.0.1.1 (blank fields)
    ∙ ap (λ l. (c ∷ word) ∷ l) (split_whitespace-spaced fields h.1)
  where
    blank : (fields : List (List ℕ)) → starts_blank (spaced fields) ≡ true
    blank [] = refl
    blank (f ∷ fs) = refl

spaced-closed :
    (fields : List (List ℕ)) → All IsWord fields → All (λ c. (c == b')') ≡ false) (spaced fields)
spaced-closed [] h = tt
spaced-closed (f ∷ fs) h =
    (refl, All-append _ f (spaced fs) (closed f h.0.1) (spaced-closed fs h.1))
  where
    closed :
        (l : List ℕ)
        → All (λ c. (is_whitespace c ≡ false) × ((c == b')') ≡ false)) l
        → All (λ c. (c == b')') ≡ false) l
    closed [] k = tt
    closed (c ∷ l) k = (k.0.1, closed l k.1)

-- Whatever stands before the last closing parenthesis of the text, also spaces and parentheses in the
-- name of the process, the time is that of the 12th and 13th of the fields after it, in nanoseconds,
-- if it fits.
pub cpu_time-spaced :
    (before : List ℕ) (fields : List (List ℕ)) (u s : List ℕ) (utime stime : ℕ)
    → All IsWord fields
    → get 11 fields ≡ some u
    → get 12 fields ≡ some s
    → parse_unsigned (2 ^ 64) u ≡ some utime
    → parse_unsigned (2 ^ 64) s ≡ some stime
    → (utime + stime) * 10000000 < 2 ^ 64
    → cpu_time (before ++ b')' ∷ spaced fields) ≡ ok ((utime + stime) * 10000000)
unfolding cpu_time field
cpu_time-spaced before fields u s utime stime words at_u at_s p q small =
    rw
      (
        after_last-found before (spaced fields) (spaced-closed fields words),
        split_whitespace-spaced fields words,
        at_u,
        p,
        at_s,
        q,
      )
      (ap ok (omega (arith, small)))
