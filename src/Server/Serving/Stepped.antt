-- ===== src/Server/Serving/Stepped.antt =====
-- What one event does to the state of the server of crates/mirum-server/src/daemon.rs.
use mirum.Base.{
  ℕ, zero, suc, ◌+◌, ◌≤◌, ◌≡◌, refl, sym, ap, subst, Bool, true, false, Option, none, some, List,
  [], ◌∷◌, ◌++◌, ok, err, arith, length, length-append, if◌then◌else◌,
}
use mirum.Server.Serving.{
  Task, serving, closing, over, Phase, accepting, joining, waiting, returned, Serving, Event,
  accepted, accept_error, signal, cancel_seen, all_joined, drained, deadline, told, finished,
  joined, is_accepting, is_returned, guard, at, tell, finish, join, with_tasks, step, is_accept,
  is_join, is_signal, more, instead,
}

-- Connections are left only before the end of the loops, which a signal has brought.
abbrev pub IsOrderly : Phase → List Task → Bool → Type 0
IsOrderly accepting cs is_cancelled = Unit {0}
IsOrderly joining cs is_cancelled = is_cancelled ≡ true
IsOrderly waiting cs is_cancelled = (is_cancelled ≡ true) × (cs ≡ [])
IsOrderly (returned (ok done)) cs is_cancelled = (is_cancelled ≡ true) × (cs ≡ [])
IsOrderly (returned (err e)) cs is_cancelled = cs ≡ []

pub guard-eq-some :
    {A : Type 0} (b : Bool) (a : A) {a' : A} → guard b a ≡ some a' → (b ≡ true) × (a ≡ a')
guard-eq-some true a h = (refl, some-of h)
  where
    some-of : {A : Type 0} {x y : A} → some x ≡ some y → x ≡ y
    some-of k = cc
guard-eq-some false a h = cc

-- One of the tasks is replaced by so many fewer than one.
length-at :
    (f : Task → Option (List Task)) (gone : ℕ) (n : ℕ) (cs cs' : List Task)
    → ((c : Task) (l : List Task) → f c ≡ some l → gone + length l ≡ 1)
    → at f n cs ≡ some cs'
    → (gone + length cs' ≡ length cs) × (1 ≤ length cs)
unfolding at
length-at f gone n [] cs' fewer h = cc
length-at f gone zero (c ∷ cs) cs' fewer h = first (f c) refl h
  where
    first :
        (o : Option (List Task))
        → f c ≡ o
        → instead o cs ≡ some cs'
        → (gone + length cs' ≡ length (c ∷ cs)) × (1 ≤ length (c ∷ cs))
    first none e k = cc
    first (some l) e k =
        omega (arith, ap length (guard-eq-some true (l ++ cs) k).1, length-append l cs, fewer c l e)
length-at f gone (suc n) (c ∷ cs) cs' fewer h =
    later (at f n cs) (λ l. length-at f gone n cs l fewer) h
  where
    later :
        (o : Option (List Task))
        → ((l : List Task) → o ≡ some l → (gone + length l ≡ length cs) × (1 ≤ length cs))
        → more (c ∷ []) o ≡ some cs'
        → (gone + length cs' ≡ length (c ∷ cs)) × (1 ≤ length (c ∷ cs))
    later none rest k = cc
    later (some l) rest k =
        omega (arith, ap length (guard-eq-some true (c ∷ l) k).1, (rest l refl).0)

abbrev pub one_if : Bool → ℕ
one_if b = if b then 1 else 0

abbrev pub is_failed : Phase → Bool
is_failed (returned (err e)) = true
is_failed _ = false

-- What one event does to the number of tasks, to the loop and to the signal.
pub record Stepped (event : Event) (s t : Serving) : Type 0 where
  pub orderly : IsOrderly t.phase t.connections t.is_cancelled
  pub closed :
      is_accepting s.phase ≡ false → (is_accept event ≡ false) × (is_accepting t.phase ≡ false)
  pub counted :
      is_failed t.phase ≡ false
      → one_if (is_accept event) + length s.connections
        ≡ one_if (is_join event) + length t.connections
  pub signalled : one_if s.is_cancelled + one_if (is_signal event) ≡ one_if t.is_cancelled
  pub going : is_returned s.phase ≡ false

guarded :
    (event : Event) (s u : Serving) (b : Bool) {t : Serving}
    → guard b u ≡ some t
    → (b ≡ true → Stepped event s u)
    → Stepped event s t
guarded event s u b h good =
    let (g, is) = guard-eq-some b u h in subst (Stepped event s) is (good g)

-- The step of one task.
tasked :
    (event : Event) (f : Task → Option (List Task)) (p : Phase) (cs : List Task) (b : Bool) (n : ℕ)
    {t : Serving}
    → IsOrderly p cs b
    → is_accept event ≡ false
    → is_signal event ≡ false
    → ((c : Task) (l : List Task) → f c ≡ some l → one_if (is_join event) + length l ≡ 1)
    → with_tasks (record { phase = p; connections = cs; is_cancelled = b }) (at f n cs) ≡ some t
    → Stepped event (record { phase = p; connections = cs; is_cancelled = b }) t
tasked event f p cs b n {t} o plain silent fewer h =
    go (at f n cs) (λ l. length-at f _ n cs l fewer) h
  where
    left :
        (q : Phase) (l : List Task)
        → IsOrderly q cs b
        → 1 ≤ length cs
        → (IsOrderly q l b) × (is_returned q ≡ false)
    left accepting l k few = (tt, refl)
    left joining l k few = (k, refl)
    left waiting l k few = absurd (omega (arith, few, ap length k.1))
    left (returned (ok done)) l k few = absurd (omega (arith, few, ap length k.1))
    left (returned (err e)) l k few = absurd (omega (arith, few, ap length k))

    go :
        (o : Option (List Task))
        → ((l : List Task)
            → o ≡ some l
            → (one_if (is_join event) + length l ≡ length cs) × (1 ≤ length cs))
        → with_tasks (record { phase = p; connections = cs; is_cancelled = b }) o ≡ some t
        → Stepped event (record { phase = p; connections = cs; is_cancelled = b }) t
    go none few k = cc
    go (some l) few k = guarded event _ _ true k λ g. record {
      orderly = (left p l o (few l refl).1).0;
      closed = λ c. (plain, c);
      counted = λ c. omega (arith, (few l refl).0, ap one_if plain);
      signalled = omega (arith, ap one_if silent);
      going = (left p l o (few l refl).1).1;
    }

taken : {event : Event} {s u t : Serving} → some u ≡ some t → Stepped event s u → Stepped event s t
taken {event} {s} {u} h good = guarded event s u true h λ g. good

pub step-Stepped :
    (event : Event) (p : Phase) (cs : List Task) (b : Bool) {t : Serving}
    → IsOrderly p cs b
    → step event (record { phase = p; connections = cs; is_cancelled = b }) ≡ some t
    → Stepped event (record { phase = p; connections = cs; is_cancelled = b }) t
unfolding step
step-Stepped accepted accepting cs b o h = taken h record {
  orderly = tt;
  closed = λ c. cc;
  counted = λ c. omega (arith, length-append cs (serving ∷ []));
  signalled = omega arith;
  going = refl;
}
step-Stepped accept_error accepting cs b o h = taken h record {
  orderly = refl;
  closed = λ c. cc;
  counted = λ c. cc;
  signalled = omega arith;
  going = refl;
}
step-Stepped signal accepting cs false o h =
    taken h
      record { orderly = tt; closed = λ c. cc; counted = λ c. refl; signalled = refl; going = refl }
step-Stepped cancel_seen accepting cs true o h =
    taken h record {
      orderly = refl;
      closed = λ c. cc;
      counted = λ c. refl;
      signalled = refl;
      going = refl;
    }
step-Stepped all_joined joining [] b o h = taken h record {
  orderly = (o, refl);
  closed = λ c. (refl, refl);
  counted = λ c. refl;
  signalled = omega arith;
  going = refl;
}
step-Stepped drained waiting cs b o h = taken h record {
  orderly = o;
  closed = λ c. (refl, refl);
  counted = λ c. refl;
  signalled = omega arith;
  going = refl;
}
step-Stepped deadline p cs b o h = guarded _ _ _ _ h λ g. record {
  orderly = refl;
  closed = λ c. (refl, refl);
  counted = λ c. cc;
  signalled = omega arith;
  going = ground (arith, g);
}
step-Stepped (told n) p cs true o h = tasked (told n) tell p cs true n o refl refl one h
  where
    one : (c : Task) (l : List Task) → tell c ≡ some l → 0 + length l ≡ 1
    one serving l k = ap (λ l. 0 + length l) (sym (guard-eq-some true _ k).1)
    one closing l k = cc
    one over l k = cc
step-Stepped (finished n) p cs b o h = tasked (finished n) finish p cs b n o refl refl one h
  where
    one : (c : Task) (l : List Task) → finish c ≡ some l → 0 + length l ≡ 1
    one serving l k = ap (λ l. 0 + length l) (sym (guard-eq-some true _ k).1)
    one closing l k = ap (λ l. 0 + length l) (sym (guard-eq-some true _ k).1)
    one over l k = cc
step-Stepped (joined n) p cs b o h = tasked (joined n) join p cs b n o refl refl one h
  where
    one : (c : Task) (l : List Task) → join c ≡ some l → 1 + length l ≡ 1
    one serving l k = cc
    one closing l k = cc
    one over l k = ap (λ l. 1 + length l) (sym (guard-eq-some true _ k).1)
step-Stepped event p cs b o h = cc
