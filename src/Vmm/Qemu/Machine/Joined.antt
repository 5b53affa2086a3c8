-- ===== src/Vmm/Qemu/Machine/Joined.antt =====
-- Where a path that is joined to a directory leads (crates/mirum-vm-vmm/src/backend/qemu/mod.rs).
use mathlib.Core.List.{append_assoc, append-nil}
use mirum.Base.{
  ℕ, String, ◌<>◌, ◌≡◌, refl, sym, ap, ◌∙◌, Bool, Bool-cases, inl, inr, true, false, List, [], ◌∷◌,
  ◌++◌, all, ◌==◌, ◌&&◌, ◌⊎◌, arith, if◌then◌else◌,
}
use mirum.Base.Text.{
  codes, codes-append, Component, normal, root_dir, cur_dir, parent_dir, is_normal, is_absolute,
  components, segments, push_segment, path_components, later_components, segment_component,
}
use mirum.Hmi.Validation.{is_unsafe_path}
use mirum.Hmi.Parts.{is_unsafe_path_iff, segments-cons}
use mirum.Hmi.Spec.{IsBelow}
use mirum.Vmm.Qemu.Machine.{needs_separator, join}

push_segment-append :
    (c : ℕ) (s : List ℕ) (rest more : List (List ℕ))
    → push_segment c ((s ∷ rest) ++ more) ≡ push_segment c (s ∷ rest) ++ more
unfolding push_segment
push_segment-append c s rest more = elim (Bool-cases (c == b'/')) [
  | inl slash ↦ rw slash
  | inr other ↦ rw other
]

segments-join : (a b : List ℕ) → segments (a ++ b'/' ∷ b) ≡ segments a ++ segments b
unfolding segments push_segment
segments-join [] b = let (s, rest, e) = segments-cons b in rw e
segments-join (c ∷ a) b =
    let (s, rest, e) = segments-cons a in
    ap (push_segment c) (segments-join a b) ∙ rw e (push_segment-append c s rest (segments b))

if-append :
    {A : Type 0} (b : Bool) (x y z : List A)
    → (if b then x ++ z else y ++ z) ≡ (if b then x else y) ++ z
if-append true x y z = refl
if-append false x y z = refl

segment_component-append :
    (s : List ℕ) (x y : List Component) → segment_component s (x ++ y) ≡ segment_component s x ++ y
unfolding segment_component
segment_component-append [] x y = refl
segment_component-append (c ∷ []) x y = if-append (c == b'.') x (normal (c ∷ []) ∷ x) y
segment_component-append (c ∷ d ∷ []) x y =
    if-append (c == b'.' && d == b'.') (parent_dir ∷ x) (normal (c ∷ d ∷ []) ∷ x) y
segment_component-append (c ∷ d ∷ e ∷ s) x y = refl

later_components-append :
    (ss ts : List (List ℕ))
    → later_components (ss ++ ts) ≡ later_components ss ++ later_components ts
unfolding later_components
later_components-append [] ts = refl
later_components-append (s ∷ ss) ts =
    ap (segment_component s) (later_components-append ss ts)
    ∙ segment_component-append s (later_components ss) (later_components ts)

-- The components of a path that ends in a separator after these segments.
abbrev opened : List (List ℕ) → List Component
opened ([] ∷ []) = root_dir ∷ []
opened ss = path_components ss

opened-append :
    (s : List ℕ) (ss : List (List ℕ)) (t : List ℕ) (ts : List (List ℕ))
    → path_components ((s ∷ ss) ++ t ∷ ts) ≡ opened (s ∷ ss) ++ later_components (t ∷ ts)
unfolding path_components
opened-append [] [] t ts = refl
opened-append [] (r ∷ ss) t ts = ap (λ l. root_dir ∷ l) (later_components-append (r ∷ ss) (t ∷ ts))
opened-append (c ∷ []) ss t ts =
    ap (λ l. one l (c == b'.')) (later_components-append ss (t ∷ ts)) ∙ go (c == b'.')
  where
    one : List Component → Bool → List Component
    one l b = if b then cur_dir ∷ l else if b then l else normal (c ∷ []) ∷ l

    go :
        (b : Bool)
        → one (later_components ss ++ later_components (t ∷ ts)) b
          ≡ one (later_components ss) b ++ later_components (t ∷ ts)
    go true = refl
    go false = refl
opened-append (c ∷ d ∷ s) ss t ts = later_components-append ((c ∷ d ∷ s) ∷ ss) (t ∷ ts)

-- Of a path whose components are all normal, the same are read after another path.
later_components-path :
    (ss : List (List ℕ))
    → all is_normal (path_components ss) ≡ true
    → later_components ss ≡ path_components ss
unfolding path_components later_components segment_component
later_components-path [] h = refl
later_components-path ([] ∷ []) h = refl
later_components-path ([] ∷ s ∷ ss) h = cc
later_components-path ((c ∷ []) ∷ ss) h = go (c == b'.') h
  where
    go :
        (b : Bool)
        → all is_normal (
            if b
            then cur_dir ∷ later_components ss
            else if b
            then later_components ss
            else normal (c ∷ []) ∷ later_components ss)
          ≡ true
        → (if b then later_components ss else normal (c ∷ []) ∷ later_components ss) ≡ (
            if b
            then cur_dir ∷ later_components ss
            else if b
            then later_components ss
            else normal (c ∷ []) ∷ later_components ss)
    go true k = cc
    go false k = refl
later_components-path ((c ∷ d ∷ s) ∷ ss) h = refl

components-separator :
    (a b : List ℕ)
    → path_components (segments (a ++ b'/' ∷ b))
      ≡ opened (segments a) ++ later_components (segments b)
components-separator a b =
    let (s, ss, e) = segments-cons a in
    let (t, ts, f) = segments-cons b in
    ap path_components (segments-join a b) ∙ rw (e, f) (opened-append s ss t ts)

opened-needs_separator :
    (a : List ℕ) → needs_separator a ≡ true → opened (segments a) ≡ path_components (segments a)
unfolding needs_separator segments push_segment
opened-needs_separator [] h = cc
opened-needs_separator (c ∷ a) h =
    let (s, ss, e) = segments-cons a in
    elim (Bool-cases (c == b'/')) [
      | inl slash ↦ rw (e, slash) refl
      | inr other ↦ rw (e, other) refl
    ]

needs_separator-cases :
    (a : List ℕ) → needs_separator a ≡ false → (a ≡ []) ⊎ ((l : List ℕ) × (a ≡ l ++ b'/' ∷ []))
unfolding needs_separator
needs_separator-cases [] h = inl refl
needs_separator-cases (c ∷ []) h =
    let slash : c ≡ b'/' = ground (arith, h) in inr ([], ap (λ d. d ∷ []) slash)
needs_separator-cases (c ∷ d ∷ a) h = go (needs_separator-cases (d ∷ a) h)
  where
    go :
        (d ∷ a ≡ []) ⊎ ((l : List ℕ) × (d ∷ a ≡ l ++ b'/' ∷ []))
        → (c ∷ d ∷ a ≡ []) ⊎ ((l : List ℕ) × (c ∷ d ∷ a ≡ l ++ b'/' ∷ []))
    go (inl e) = cc
    go (inr (l, e)) = inr (c ∷ l, ap (λ m. c ∷ m) e)

is_absolute-IsBelow : (path : String) → IsBelow path → is_absolute path ≡ false
unfolding is_unsafe_path
is_absolute-IsBelow path h = let safe = (is_unsafe_path_iff path).1 h in ground arith

-- A path that leads downwards, joined to any directory, also an empty one or one with separators at
-- its end, goes on from the components of the directory with its own.
pub components-join :
    (dir path : String)
    → IsBelow path
    → components (join dir path) ≡ components dir ++ components path
unfolding join components
components-join dir path h =
    ap (λ b. path_components (segments (codes (chosen b (needs_separator (codes dir))))))
      (is_absolute-IsBelow path h)
    ∙ go (needs_separator (codes dir)) refl
    ∙ ap (λ l. path_components (segments (codes dir)) ++ l)
        (later_components-path (segments (codes path)) h.1)
  where
    chosen : Bool → Bool → String
    chosen absolute needed =
        if absolute then path else if needed then dir <> "/" <> path else dir <> path

    later : List Component
    later = later_components (segments (codes path))

    ended :
        (codes dir ≡ []) ⊎ ((l : List ℕ) × (codes dir ≡ l ++ b'/' ∷ []))
        → path_components (segments (codes dir ++ codes path))
          ≡ path_components (segments (codes dir)) ++ later
    ended (inl e) = rw e (sym (later_components-path (segments (codes path)) h.1))
    ended (inr (l, e)) = rw e (
        ap (λ m. path_components (segments m)) (append_assoc l (b'/' ∷ []) (codes path))
        ∙ components-separator l (codes path)
        ∙ ap (λ m. m ++ later) (sym (components-separator l [] ∙ append-nil (opened (segments l)))))

    go :
        (b : Bool)
        → needs_separator (codes dir) ≡ b
        → path_components (segments (codes (chosen false b)))
          ≡ path_components (segments (codes dir)) ++ later
    go true e =
        ap (λ m. path_components (segments m))
          (codes-append dir ("/" <> path) ∙ ap (λ m. codes dir ++ m) (codes-append "/" path))
        ∙ components-separator (codes dir) (codes path)
        ∙ ap (λ m. m ++ later) (opened-needs_separator (codes dir) e)
    go false e =
        ap (λ m. path_components (segments m)) (codes-append dir path)
        ∙ ended (needs_separator-cases (codes dir) e)
