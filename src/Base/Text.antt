-- ===== src/Base/Text.antt =====
-- The parts of Rust's `str` and of `std::path` on Unix that the crates use, over native texts.
-- A text is read as its code points; where the source counts or walks bytes, it does so on texts
-- that it has found to be ASCII, or for an ASCII byte, which is no part of another character.
use Prim.Native.Char.{code}
use Prim.Native.String.{String, ◌++◌ as ◌<>◌}
use text.Mathlib.TextLemmas.{cons-append, nil-append}
use mathlib.Core.Path.{◌≡◌, refl, ap, ◌∙◌}
use mathlib.Core.Bool.{Bool, true, false, ◌&&◌, ◌||◌}
use mathlib.Core.Option.{Option, none, some}
use mathlib.Core.List.{List, [], ◌∷◌, ◌++◌}
use Prim.Native.Nat.{ℕ}
use mirum.Base.Tests.{◌==◌, leb, if◌then◌else◌}

abbrev pub codes : String → List ℕ
codes String.[] = []
codes (String.◌∷◌ c s) = code c ∷ codes s

pub codes-append : (s t : String) → codes (s <> t) ≡ codes s ++ codes t
codes-append String.[] t = ap codes (nil-append t)
codes-append (String.◌∷◌ c s) t =
    ap codes (cons-append c s t) ∙ ap (λ l. code c ∷ l) (codes-append s t)

-- `char::is_whitespace`: the code points with the Unicode property `White_Space`.
unfoldable pub is_whitespace : ℕ → Bool
is_whitespace c =
    leb 9 c && leb c 13
    || c == 32
    || c == 133
    || c == 160
    || c == 5760
    || leb 8192 c && leb c 8202
    || c == 8232
    || c == 8233
    || c == 8239
    || c == 8287
    || c == 12288

-- `s.trim().is_empty()`.
unfoldable pub is_blank : String → Bool
is_blank String.[] = true
is_blank (String.◌∷◌ c s) = is_whitespace (code c) && is_blank s

-- `u8::is_ascii_hexdigit`.
unfoldable pub is_ascii_hexdigit : ℕ → Bool
is_ascii_hexdigit c =
    leb b'0' c && leb c b'9' || leb b'a' c && leb c b'f' || leb b'A' c && leb c b'F'

-- `s.strip_prefix(p)`, the prefix first.
unfoldable pub strip_prefix : String → String → Option String
strip_prefix String.[] s = some s
strip_prefix (String.◌∷◌ p ps) String.[] = none
strip_prefix (String.◌∷◌ p ps) (String.◌∷◌ c s) =
    if code p == code c then strip_prefix ps s else none

-- `std::path::Component` on Unix, where there is no prefix component. The text of a normal
-- component is its list of code points.
pub data Component : Type 0 where
  root_dir cur_dir parent_dir : Component
  normal : List ℕ → Component

-- One more character in front of the segments.
unfoldable pub push_segment : ℕ → List (List ℕ) → List (List ℕ)
push_segment c [] = (c ∷ []) ∷ []
push_segment c (s ∷ rest) = if c == b'/' then [] ∷ s ∷ rest else (c ∷ s) ∷ rest

-- The segments between the separators; there is at least one.
unfoldable pub segments : List ℕ → List (List ℕ)
unfolding push_segment
segments [] = [] ∷ []
segments (c ∷ cs) = push_segment c (segments cs)

-- A segment after the first: empty and `.` segments are passed over.
unfoldable pub segment_component : List ℕ → List Component → List Component
segment_component [] rest = rest
segment_component (c ∷ []) rest = if c == b'.' then rest else normal (c ∷ []) ∷ rest
segment_component (c ∷ d ∷ []) rest =
    if c == b'.' && d == b'.' then parent_dir ∷ rest else normal (c ∷ d ∷ []) ∷ rest
segment_component s rest = normal s ∷ rest

unfoldable pub later_components : List (List ℕ) → List Component
unfolding segment_component
later_components [] = []
later_components (s ∷ ss) = segment_component s (later_components ss)

-- A leading `.` of a relative path is a component; an empty first segment that has a separator
-- behind it is the root.
unfoldable pub path_components : List (List ℕ) → List Component
unfolding later_components
path_components [] = []
path_components ([] ∷ []) = []
path_components ([] ∷ s ∷ ss) = root_dir ∷ later_components (s ∷ ss)
path_components ((c ∷ []) ∷ ss) =
    if c == b'.' then cur_dir ∷ later_components ss else later_components ((c ∷ []) ∷ ss)
path_components ((c ∷ d ∷ s) ∷ ss) = later_components ((c ∷ d ∷ s) ∷ ss)

-- `Path::new(s).components()`.
unfoldable pub components : String → List Component
unfolding path_components segments
components s = path_components (segments (codes s))

-- `Path::new(s).is_absolute()`.
unfoldable pub is_absolute : String → Bool
is_absolute String.[] = false
is_absolute (String.◌∷◌ c s) = code c == b'/'

-- `matches!(component, Component::Normal(_))`.
abbrev pub is_normal : Component → Bool
is_normal (normal s) = true
is_normal _ = false

components_example :
    (components "a/./b//c/" ≡ normal (codes "a") ∷ normal (codes "b") ∷ normal (codes "c") ∷ [])
    × (components "/a/.." ≡ root_dir ∷ normal (codes "a") ∷ parent_dir ∷ [])
    × (components "./a" ≡ cur_dir ∷ normal (codes "a") ∷ [])
    × (components "" ≡ [])
    × (components "/" ≡ root_dir ∷ [])
unfolding components
components_example = (refl, refl, refl, refl, refl)
