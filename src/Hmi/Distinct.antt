-- ===== src/Hmi/Distinct.antt =====
-- Sets filled by loops: what the insertions of a whole loop tested.
use mirum.Base.{
  String, ◌≡◌, refl, ◌↔◌, true, false, ◌&&◌, ◌||◌, List, [], ◌∷◌, ◌++◌, arith, contains, fresh,
  Distinct, eq_iff,
}

-- The set after a loop has inserted the texts in order.
unfoldable pub insert_all : List String → List String → List String
insert_all [] seen = seen
insert_all (x ∷ xs) seen = insert_all xs (x ∷ seen)

pub insert_all-append :
    (xs ys seen : List String) → insert_all (xs ++ ys) seen ≡ insert_all ys (insert_all xs seen)
unfolding insert_all
insert_all-append [] ys seen = refl
insert_all-append (x ∷ xs) ys seen = insert_all-append xs ys (x ∷ seen)

contains-insert_all :
    (xs seen : List String) (s : String)
    → contains (insert_all xs seen) s ≡ (contains xs s || contains seen s)
unfolding insert_all contains
contains-insert_all [] seen s = refl
contains-insert_all (x ∷ xs) seen s = ground (arith, contains-insert_all xs (x ∷ seen) s)

pub contains-insert_all_nil :
    (xs : List String) (s : String) → contains (insert_all xs []) s ≡ contains xs s
unfolding contains
contains-insert_all_nil xs s = ground (arith, contains-insert_all xs [] s)

pub fresh-append :
    (xs ys seen : List String)
    → fresh seen (xs ++ ys) ≡ (fresh seen xs && fresh (insert_all xs seen) ys)
unfolding insert_all fresh
fresh-append [] ys seen = refl
fresh-append (x ∷ xs) ys seen = ground (arith, fresh-append xs ys (x ∷ seen))

-- None of the texts is in the set.
abbrev Avoids : List String → List String → Type 0
Avoids seen [] = Unit
Avoids seen (x ∷ xs) = (contains seen x ≡ false) × Avoids seen xs

Avoids-cons :
    (seen : List String) (x : String) (xs : List String)
    → Avoids (x ∷ seen) xs ↔ ((contains xs x ≡ false) × Avoids seen xs)
unfolding contains
Avoids-cons seen x [] = (λ h. (refl, tt), λ h. tt)
Avoids-cons seen x (y ∷ ys) = (
  λ h.
      let r = (Avoids-cons seen x ys).0 h.1 in
      (ground (arith, eq_iff x y, eq_iff y x), (ground arith, r.1)),
  λ h. (ground (arith, eq_iff x y, eq_iff y x), (Avoids-cons seen x ys).1 (ground arith, h.1.1)),
)

fresh_iff_Avoids : (seen xs : List String) → (fresh seen xs ≡ true) ↔ (Distinct xs × Avoids seen xs)
unfolding fresh
fresh_iff_Avoids seen [] = (λ h. (tt, tt), λ h. refl)
fresh_iff_Avoids seen (x ∷ xs) = (
  λ h.
      let r = (fresh_iff_Avoids (x ∷ seen) xs).0 (ground arith) in
      let a = (Avoids-cons seen x xs).0 r.1 in ((a.0, r.0), (ground arith, a.1)),
  λ h.
      let r =
        (fresh_iff_Avoids (x ∷ seen) xs).1 (h.0.1, (Avoids-cons seen x xs).1 (h.0.0, h.1.1)) in
      ground arith,
)

Avoids-nil : (xs : List String) → Avoids [] xs
unfolding contains
Avoids-nil [] = tt
Avoids-nil (x ∷ xs) = (refl, Avoids-nil xs)

-- From the empty set, every insertion succeeds exactly when the texts are pairwise different.
pub fresh-nil_iff : (xs : List String) → (fresh [] xs ≡ true) ↔ Distinct xs
fresh-nil_iff xs =
    (λ h. ((fresh_iff_Avoids [] xs).0 h).0, λ h. (fresh_iff_Avoids [] xs).1 (h, Avoids-nil xs))
