-- ===== src/Oci/Client.antt =====
-- `make_client` of crates/mirum-vm-oci/src/lib.rs: the protocol that is spoken with a registry, which
-- `resolve_registry` of `oci_client` names.
use Prim.Native.Char.{code}
use text.Mathlib.TextLemmas.{cons-append, nil-append}
use mirum.Base.{
  String, ◌<>◌, ◌≡◌, ◌↔◌, ◌⊎◌, refl, sym, ap, subst, ◌∙◌, eq_iff, false, ◌||◌, arith, ◌==◌, ◌=s=◌,
  if◌then◌else◌,
}

pub data Protocol : Type 0 where
  http https : Protocol

-- `registry.split(':').next()`
unfoldable pub host_of : String → String
host_of String.[] = String.[]
host_of (String.◌∷◌ c s) =
    let rest = host_of s in if code c == b':' then String.[] else String.◌∷◌ c rest

unfoldable pub protocol_of : String → Protocol
protocol_of registry =
    let host = host_of registry in
    if host =s= "localhost" || host =s= "127.0.0.1" then http else https

-- No colon stands in a text.
abbrev pub IsHost : String → Type 0
IsHost String.[] = Unit {0}
IsHost (String.◌∷◌ c s) = ((code c == b':') ≡ false) × IsHost s

host_of-append : (host port : String) → IsHost host → host_of (host <> ":" <> port) ≡ host
unfolding host_of
host_of-append String.[] port h = ap host_of (nil-append (":" <> port) ∙ cons-append _ "" port)
host_of-append (String.◌∷◌ c host) port h =
    ap host_of (cons-append c host (":" <> port))
    ∙ ap (λ b. if b then String.[] else String.◌∷◌ c (host_of (host <> ":" <> port))) h.0
    ∙ ap (String.◌∷◌ c) (host_of-append host port h.1)

host_of-host : (host : String) → IsHost host → host_of host ≡ host
unfolding host_of
host_of-host String.[] h = refl
host_of-host (String.◌∷◌ c host) h =
    ap (λ b. if b then String.[] else String.◌∷◌ c (host_of host)) h.0
    ∙ ap (String.◌∷◌ c) (host_of-host host h.1)

-- The port of a registry does not matter, and plain HTTP is spoken exactly with the two names of the
-- own machine.
pub protocol_of_iff :
    (host port : String)
    → IsHost host
    → (protocol_of (host <> ":" <> port) ≡ protocol_of host)
      × ((protocol_of host ≡ http) ↔ ((host ≡ "localhost") ⊎ (host ≡ "127.0.0.1")))
unfolding protocol_of
protocol_of_iff host port h = (
  ap protocol (host_of-append host port h) ∙ sym (ap protocol (host_of-host host h)),
  subst (λ name. (protocol name ≡ http) ↔ ((host ≡ "localhost") ⊎ (host ≡ "127.0.0.1")))
      (sym (host_of-host host h)) (plain, secure),
)
  where
    protocol : String → Protocol
    protocol name = if name =s= "localhost" || name =s= "127.0.0.1" then http else https

    plain : protocol host ≡ http → (host ≡ "localhost") ⊎ (host ≡ "127.0.0.1")
    plain e = ground (arith, e, eq_iff host "localhost", eq_iff host "127.0.0.1")

    secure : (host ≡ "localhost") ⊎ (host ≡ "127.0.0.1") → protocol host ≡ http
    secure e = ground (arith, e, eq_iff host "localhost", eq_iff host "127.0.0.1")
