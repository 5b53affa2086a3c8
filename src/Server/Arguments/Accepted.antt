-- ===== src/Server/Arguments/Accepted.antt =====
-- Which command lines mirum-server starts with (crates/mirum-server/src/main.rs).
use mirum.Base.{
  String, ◌≡◌, ◌≢◌, ◌↔◌, refl, ap, ◌∙◌, Bool, Option, none, some, List, [], ◌∷◌, Result, ok, arith,
  eq_iff, ◌=s=◌,
}
use mirum.Server.Arguments.{argument_of, parse_loop, parse_arguments}

-- After the path, nothing else may follow it.
parse_loop-some :
    (path : String) (rest : List String) (found : String)
    → parse_loop (some path) rest ≡ ok (some found)
    → (rest ≡ []) × (path ≡ found)
unfolding parse_loop
parse_loop-some path [] found h = (refl, path-of h)
  where
    path-of :
        {a b : String} → ◌≡◌ {A = Result String (Option String)} (ok (some a)) (ok (some b)) → a ≡ b
    path-of k = cc
parse_loop-some path (argument ∷ []) found h = absurd (ground (arith, h))
parse_loop-some path (argument ∷ second ∷ rest) found h = absurd (ground (arith, h))

-- The server is started with a path exactly when the arguments are `--config` and this path, which is
-- not empty.
pub parse_arguments_iff :
    (arguments : List String) (path : String)
    → (parse_arguments arguments ≡ ok (some path))
      ↔ ((arguments ≡ "--config" ∷ path ∷ []) × (path ≢ ""))
unfolding parse_arguments parse_loop argument_of
parse_arguments_iff arguments path = (to arguments, from)
  where
    to :
        (arguments : List String)
        → parse_loop none arguments ≡ ok (some path)
        → (arguments ≡ "--config" ∷ path ∷ []) × (path ≢ "")
    to [] h = cc
    to (argument ∷ []) h = absurd (ground (arith, h))
    to (argument ∷ second ∷ rest) h =
        let (flag, more, good) = taken (argument =s= "--config") (second =s= "") refl refl h in
        let (none_left, same) = parse_loop-some second rest path more in
        (cc (flag, none_left, same), λ empty. good (same ∙ empty))
      where
        taken :
            (is_config is_empty : Bool)
            → (argument =s= "--config") ≡ is_config
            → (second =s= "") ≡ is_empty
            → parse_loop none (argument ∷ second ∷ rest) ≡ ok (some path)
            → (argument ≡ "--config")
              × (parse_loop (some second) rest ≡ ok (some path))
              × (second ≢ "")
        taken a b e f k = ground (arith, e, f, k, eq_iff argument "--config", eq_iff second "")

    from :
        (arguments ≡ "--config" ∷ path ∷ []) × (path ≢ "")
        → parse_loop none arguments ≡ ok (some path)
    from (e, good) = ap (parse_loop none) e ∙ ground (arith, good, eq_iff path "")
