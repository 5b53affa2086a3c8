-- ===== src/Hmi/Validation.antt =====
-- `Validation` of crates/mirum-vm-hmi/src/lib.rs: the collected issues, and the checks on texts.
use mirum.Base.{
  String, ◌<>◌, ◌≡◌, refl, ◌↔◌, Bool, true, false, not, ◌||◌, List, [], ◌∷◌, ◌++◌, arith, Result,
  ok, err, all, is_empty, ◌=s=◌, if◌then◌else◌,
}
use mirum.Base.Text.{is_blank, components, is_absolute, is_normal}

pub record Validation : Type 0 where
  pub issues : List String

abbrev pub no_issues : Validation
no_issues = record { issues = [] }

abbrev pub ValidationError : Type 0
ValidationError = List String

-- `Validation::error`.
unfoldable pub error : String → Validation → Validation
error message v = record { issues = v.issues ++ message ∷ [] }

-- `if condition { validation.error(message); }`.
unfoldable pub error_if : Bool → String → Validation → Validation
unfolding error
error_if condition message v = if condition then error message v else v

-- `Validation::required`.
unfoldable pub required : String → String → Validation → Validation
unfolding error_if
required value field = error_if (is_blank value) (field <> " must not be empty")

-- The condition of `Validation::path`.
unfoldable pub is_unsafe_path : String → Bool
is_unsafe_path value = value =s= "" || is_absolute value || not (all is_normal (components value))

-- `Validation::path`.
unfoldable pub path : String → String → Validation → Validation
unfolding error_if is_unsafe_path
path value field = error_if (is_unsafe_path value) (field <> " must be a relative normalized path")

-- `Validation::finish`.
unfoldable pub finish : Validation → Result ValidationError (Unit {0})
finish v = if is_empty v.issues then ok tt else err v.issues

-- Nothing has been reported.
unfoldable pub is_clean : Validation → Bool
is_clean v = is_empty v.issues

is_empty-append : (xs : List String) (x : String) → is_empty (xs ++ x ∷ []) ≡ false
is_empty-append [] x = refl
is_empty-append (y ∷ xs) x = refl

-- `f` reports nothing new exactly when `P` holds.
pub record Checks (f : Validation → Validation) (P : Type 0) : Type 0 where
  pub at : (v : Validation) → (is_clean (f v) ≡ true) ↔ ((is_clean v ≡ true) × P)

pub Checks-error_if : (b : Bool) (message : String) → Checks (error_if b message) (b ≡ false)
unfolding error_if is_clean
Checks-error_if true message = record {
  at = λ v. (λ h. cc (is_empty-append v.issues message), λ h. cc);
}
Checks-error_if false message = record { at = λ v. (λ h. (h, refl), λ h. h.0) }

pub Checks-error : (message : String) → Checks (error message) ⊥
unfolding error is_clean
Checks-error message = record {
  at = λ v. (λ h. cc (is_empty-append v.issues message), λ h. absurd h.1);
}

pub Checks-skip : Checks (λ v. v) Unit
Checks-skip = record { at = λ v. (λ h. (h, tt), λ h. h.0) }

-- Two checks in a row.
pub Checks-then :
    {f g : Validation → Validation} {P Q : Type 0}
    → Checks f P
    → Checks g Q
    → Checks (λ v. g (f v)) (P × Q)
Checks-then {f} {g} cf cg = record {
  at = λ v. (
    λ h. let r = (cg.at (f v)).0 h in let s = (cf.at v).0 r.0 in (s.0, (s.1, r.1)),
    λ h. (cg.at (f v)).1 ((cf.at v).1 (h.0, h.1.0), h.1.1),
  );
}

pub Checks-iff : {f : Validation → Validation} {P Q : Type 0} → Checks f P → (P ↔ Q) → Checks f Q
Checks-iff c e = record {
  at = λ v. (λ h. let r = (c.at v).0 h in (r.0, e.0 r.1), λ h. (c.at v).1 (h.0, e.1 h.1));
}

pub Checks-required :
    (value field : String) → Checks (required value field) (is_blank value ≡ false)
unfolding required
Checks-required value field = Checks-error_if _ _

pub Checks-path : (value field : String) → Checks (path value field) (is_unsafe_path value ≡ false)
unfolding path
Checks-path value field = Checks-error_if _ _

-- Checks that start from nothing succeed exactly under their condition.
pub finish-Checks :
    {f : Validation → Validation} {P : Type 0} → Checks f P → (finish (f no_issues) ≡ ok tt) ↔ P
unfolding finish is_clean
finish-Checks {f} c =
    (λ h. ((c.at no_issues).0 (ground arith)).1, λ h. let e = (c.at no_issues).1 (refl, h) in rw e)
