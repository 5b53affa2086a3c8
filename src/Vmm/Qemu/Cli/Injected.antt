-- ===== src/Vmm/Qemu/Cli/Injected.antt =====
-- Paths with a comma that `Validation::path` of crates/mirum-vm-hmi/src/lib.rs accepts, for
-- crates/mirum-vm-vmm/src/backend/qemu/cli.rs.
use mirum.Base.{
  ℕ, String, ◌<>◌, ◌≡◌, refl, ap, subst, ◌∙◌, Bool, true, false, List, [], ◌∷◌, all, ◌==◌,
  if◌then◌else◌,
}
use mirum.Base.Text.{
  codes, codes-append, Component, normal, cur_dir, is_normal, components, segments, push_segment,
  path_components, later_components, segment_component,
}
use mirum.Hmi.Validation.{is_unsafe_path}
use mirum.Hmi.Parts.{is_unsafe_path_iff, segments-cons}

-- A first segment of one character.
lone_normal :
    (b : Bool) (s : List ℕ) (rest : List Component)
    → all is_normal (if b then cur_dir ∷ rest else if b then rest else normal s ∷ rest) ≡ true
    → all is_normal (if b then rest else normal s ∷ rest) ≡ true
lone_normal true s rest h = cc
lone_normal false s rest h = h

-- Of a path whose components are all normal, so are those that are read of it after another one.
later_normal :
    (ss : List (List ℕ))
    → all is_normal (path_components ss) ≡ true
    → all is_normal (later_components ss) ≡ true
unfolding path_components later_components segment_component
later_normal [] h = refl
later_normal ([] ∷ []) h = refl
later_normal ([] ∷ s ∷ ss) h = cc
later_normal ((c ∷ []) ∷ ss) h = lone_normal (c == b'.') (c ∷ []) (later_components ss) h
later_normal ((c ∷ d ∷ s) ∷ ss) h = h

components-injected :
    (q : String)
    → all is_normal (components q) ≡ true
    → all is_normal (components ("root,file=/" <> q)) ≡ true
unfolding components segments push_segment path_components later_components segment_component
components-injected q h =
    let (s, rest, e) = segments-cons (codes q) in
    ap (λ l. all is_normal (path_components (segments l))) (codes-append "root,file=/" q)
    ∙ rw e (later_normal (s ∷ rest) (subst (λ l. all is_normal (path_components l) ≡ true) e h))

-- A path that is accepted is accepted behind a comma, too.
pub is_unsafe_path-injected :
    (q : String) → is_unsafe_path q ≡ false → is_unsafe_path ("root,file=/" <> q) ≡ false
is_unsafe_path-injected q h = (is_unsafe_path_iff ("root,file=/" <> q)).1 (
  (λ e. cc (codes-append "root,file=/" q, ap codes e)),
  components-injected q ((is_unsafe_path_iff q).0 h).1,
)
