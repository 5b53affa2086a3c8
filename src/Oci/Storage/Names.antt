-- ===== src/Oci/Storage/Names.antt =====
-- The names below the roots of the storage: a digest or a title never leads out of its directory.
use text.Mathlib.TextLemmas.{nil-append, cons-append}
use mirum.Base.{ℕ, String, ◌<>◌, ◌≡◌, refl, ap, ◌↔◌, true, some, List, [], ◌∷◌, arith, Result, ok}
use mirum.Base.Text.{strip_prefix, Component, cur_dir, parent_dir, root_dir, normal, components}
use mirum.Oci.World.{Error, External}
use mirum.Oci.Storage.{
  is_single, unwrap_or, join, safe_component, strip_sha256, hmi_image_dir, hmi_file_path,
  sha256_hex,
}

is_single_iff :
    (cs : List Component) → (is_single cs ≡ true) ↔ ((s : List ℕ) × (cs ≡ normal s ∷ []))
unfolding is_single
is_single_iff (normal s ∷ []) = (λ h. (s, refl), λ h. refl)
is_single_iff [] = (λ h. cc, λ h. cc (h.1))
is_single_iff (normal s ∷ c ∷ cs) = (λ h. cc, λ h. cc (h.1))
is_single_iff (root_dir ∷ cs) = (λ h. cc, λ h. cc (h.1))
is_single_iff (cur_dir ∷ cs) = (λ h. cc, λ h. cc (h.1))
is_single_iff (parent_dir ∷ cs) = (λ h. cc, λ h. cc (h.1))

-- `safe_component` lets a text through, unchanged, exactly when it is one normal component.
pub safe_component_iff :
    (value kind : String) (name : String)
    → (safe_component value kind ≡ ok name)
      ↔ ((name ≡ value) × (s : List ℕ) × (components value ≡ normal s ∷ []))
unfolding safe_component
safe_component_iff value kind name =
    let i = is_single_iff (components value) in
    (
      λ h. let e = i.0 (ground arith) in (ground arith, e.0, e.1),
      λ h. let e = i.1 (h.1, h.2) in let n = h.0 in ground arith,
    )

strip_prefix-append : (p s : String) → strip_prefix p (p <> s) ≡ some s
unfolding strip_prefix
strip_prefix-append String.[] s = rw (nil-append s) (unfold strip_prefix in refl)
strip_prefix-append (String.◌∷◌ c p) s =
    rw (cons-append c p s) (ground (arith, strip_prefix-append p s))

join-eq-ok :
    (x y : Result Error String) {dir name : String}
    → join x y ≡ ok (dir, name)
    → (x ≡ ok name) × (y ≡ ok dir)
join-eq-ok x y h = ground arith

-- A file of an image is looked for below the HMI root, in the directory of the image's digest, under
-- its title; digest and title must each be one normal component.
pub hmi_file_path_iff :
    (digest title : String) (dir name : String)
    → (hmi_file_path digest title ≡ ok (dir, name)) ↔ (
        (dir ≡ strip_sha256 digest)
        × (name ≡ title)
        × (s t : List ℕ) × (components (strip_sha256 digest) ≡ normal s ∷ [])
        × (components title ≡ normal t ∷ []))
unfolding hmi_file_path hmi_image_dir
hmi_file_path_iff digest title dir name =
    let a = safe_component_iff title "image file name" in
    let b = safe_component_iff (strip_sha256 digest) "manifest digest" in
    (
      λ h.
          let p =
            join-eq-ok (safe_component title "image file name")
              (safe_component (strip_sha256 digest) "manifest digest") h in
          let t = (a name).0 p.0 in let d = (b dir).0 p.1 in (d.0, t.0, d.1, t.1, d.2, t.2),
      λ h. let t = (a name).1 (h.1, h.3, h.5) in let d = (b dir).1 (h.0, h.2, h.4) in rw (t, d),
    )

pub strip_sha256-sha256_hex :
    (X : External) (b : List ℕ) → strip_sha256 (sha256_hex X b) ≡ X.sha256 b
unfolding strip_sha256 sha256_hex
strip_sha256-sha256_hex X b =
    ap (λ o. unwrap_or o ("sha256:" <> X.sha256 b)) (strip_prefix-append "sha256:" (X.sha256 b))
