-- ===== src/Server/Serving/Drains.antt =====
-- The end of the server: nothing is accepted, and every connection is joined, before `run` returns
-- without an error (crates/mirum-server/src/daemon.rs).
use mirum.Base.{
  ◌+◌, ◌≡◌, refl, sym, ap, subst, ◌∙◌, Bool, true, false, Option, none, some, List, [], ◌∷◌, ◌++◌,
  ok, arith, length,
}
use mirum.Server.Serving.{
  Task, Phase, accepting, joining, waiting, returned, Serving, listening, Event, cancel_seen,
  is_accepting, is_returned, step, play, is_accept, is_join, is_signal, how_many, and_then,
}
use mirum.Server.Serving.Stepped.{IsOrderly, guard-eq-some, one_if, is_failed, step-Stepped}

-- What a run that ends without an error has done.
pub record Drained (events : List Event) (s : Serving) : Type 0 where
  pub joined_all : how_many is_accept events + length s.connections ≡ how_many is_join events
  pub signalled : one_if s.is_cancelled + how_many is_signal events ≡ 1

pub play-cons :
    (event : Event) (events : List Event) (s : Serving) {t : Serving}
    → play (event ∷ events) s ≡ some t
    → (u : Serving) × (step event s ≡ some u) × (play events u ≡ some t)
unfolding play
play-cons event events s {t} h = go (step event s) refl h
  where
    go :
        (next : Option Serving)
        → step event s ≡ next
        → and_then next (play events) ≡ some t
        → (u : Serving) × (step event s ≡ some u) × (play events u ≡ some t)
    go none e k = cc
    go (some u) e k = (u, e, k)

-- Nothing happens after the end.
play-going :
    (events : List Event) (s t : Serving)
    → IsOrderly s.phase s.connections s.is_cancelled
    → play events s ≡ some t
    → t.phase ≡ returned (ok tt)
    → is_failed s.phase ≡ false
unfolding play
play-going [] s t o h e =
    ap (λ (x : Serving). is_failed x.phase) (guard-eq-some true s h).1 ∙ ap is_failed e
play-going (event ∷ events) s t o h e =
    let (u, first, rest) = play-cons event events s h in
    not_failed s.phase (step-Stepped event _ _ _ o first).going
  where
    not_failed : (p : Phase) → is_returned p ≡ false → is_failed p ≡ false
    not_failed (returned r) g = cc
    not_failed accepting g = refl
    not_failed joining g = refl
    not_failed waiting g = refl

play-Drained :
    (events : List Event) (s t : Serving)
    → IsOrderly s.phase s.connections s.is_cancelled
    → play events s ≡ some t
    → t.phase ≡ returned (ok tt)
    → Drained events s
unfolding play how_many
play-Drained [] s t o h e =
    let (b, cs) =
      at_end s.phase s.connections s.is_cancelled
        (ap (λ (x : Serving). x.phase) (guard-eq-some true s h).1 ∙ e) o in
    record { joined_all = omega (arith, ap length cs); signalled = ap (λ x. one_if x + 0) b }
  where
    at_end :
        (p : Phase) (cs : List Task) (b : Bool)
        → p ≡ returned (ok tt)
        → IsOrderly p cs b
        → (b ≡ true) × (cs ≡ [])
    at_end p cs b e o = subst (λ (x : Phase). IsOrderly x cs b) e o
play-Drained (event ∷ events) s t o h e =
    let (u, first, rest) = play-cons event events s h in
    let now = step-Stepped event _ _ _ o first in
    let later = play-Drained events u t now.orderly rest e in
    record {
      joined_all =
          omega (arith, now.counted (play-going events u t now.orderly rest e), later.joined_all);
      signalled = omega (arith, now.signalled, later.signalled);
    }

-- Once the loop is over, nothing is accepted.
pub play-closed :
    (events : List Event) (s t : Serving)
    → IsOrderly s.phase s.connections s.is_cancelled
    → is_accepting s.phase ≡ false
    → play events s ≡ some t
    → how_many is_accept events ≡ 0
unfolding play how_many
play-closed [] s t o c h = refl
play-closed (event ∷ events) s t o c h =
    let (u, first, rest) = play-cons event events s h in
    let now = step-Stepped event _ _ _ o first in
    omega
      (arith, ap one_if (now.closed c).0, play-closed events u t now.orderly (now.closed c).1 rest)

-- From the start, whatever happens: if the server ends without an error, there was one signal, and
-- every connection that was accepted was joined.
pub play-returned :
    (events : List Event) (t : Serving)
    → play events listening ≡ some t
    → t.phase ≡ returned (ok tt)
    → (how_many is_signal events ≡ 1) × (how_many is_accept events ≡ how_many is_join events)
unfolding listening
play-returned events t h e =
    let all = play-Drained events listening t tt h e in
    (omega (arith, all.signalled), omega (arith, all.joined_all))

-- From the start, nothing is accepted after the loop has seen the signal.
pub accepted-cancel_seen :
    (before after : List Event) (t : Serving)
    → play (before ++ cancel_seen ∷ after) listening ≡ some t
    → how_many is_accept after ≡ 0
unfolding listening step
accepted-cancel_seen before after t h = from before listening tt h
  where
    seen : (u v : Serving) → step cancel_seen u ≡ some v → is_accepting v.phase ≡ false
    seen u v k = ap (λ (x : Serving). is_accepting x.phase) (sym (guard-eq-some _ _ k).1)

    from :
        (before : List Event) (s : Serving)
        → IsOrderly s.phase s.connections s.is_cancelled
        → play (before ++ cancel_seen ∷ after) s ≡ some t
        → how_many is_accept after ≡ 0
    from [] s o k =
        let (u, first, rest) = play-cons cancel_seen after s k in
        play-closed after u t (step-Stepped cancel_seen _ _ _ o first).orderly (seen s u first) rest
    from (event ∷ before) s o k =
        let (u, first, rest) = play-cons event (before ++ cancel_seen ∷ after) s k in
        from before u (step-Stepped event _ _ _ o first).orderly rest
