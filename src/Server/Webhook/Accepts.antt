-- ===== src/Server/Webhook/Accepts.antt =====
-- What a push of a commit is, and a signed request (crates/mirum-server/src/daemon.rs).
use mirum.Base.{
  String, ◌≡◌, ◌≢◌, refl, ap, ◌∙◌, ◌↔◌, ◌⊎◌, true, false, Option, none, some, all, length, is_some,
  arith, eq_iff, ◌==◌,
}
use mirum.Base.Text.{codes, strip_prefix, is_ascii_hexdigit}
use mirum.Oci.Types.{Bytes}
use mirum.Server.Types.{GithubPush, Request, Crates}
use mirum.Server.Webhook.{
  is_deletion, is_good_push, verify_signature, unwrap_or_default, verify_stripped, verify_decoded,
}

-- A push whose commit is 40 or 64 hexadecimal digits that are not all zero, whose ref begins with
-- `refs/heads/` or `refs/tags/`, and whose repository has a name and a clone URL that are not empty.
pub record IsPush (push : GithubPush) : Type 0 where
  pub length_lem : (length (codes push.after) ≡ 40) ⊎ (length (codes push.after) ≡ 64)
  pub digits : all is_ascii_hexdigit (codes push.after) ≡ true
  pub some_commit : all (λ c. c == b'0') (codes push.after) ≡ false
  pub git_ref :
      (is_some (strip_prefix "refs/heads/" push.git_ref) ≡ true)
      ⊎ (is_some (strip_prefix "refs/tags/" push.git_ref) ≡ true)
  pub full_name : push.repository.full_name ≢ ""
  pub clone_url : push.repository.clone_url ≢ ""

pub is_good_push_iff :
    (push : GithubPush)
    → ((is_deletion push.after ≡ false) × (is_good_push push ≡ true)) ↔ IsPush push
unfolding is_deletion is_good_push
is_good_push_iff push =
    ground (arith, eq_iff push.repository.full_name "", eq_iff push.repository.clone_url "")

module _ (X : Crates) where
  -- The request carries a signature of its body under the secret, which is not empty.
  pub record IsSigned (secret : String) (request : Request) : Type 0 where
    pub secret_lem : secret ≢ ""
    pub header : String
    pub text : String
    pub signature : Bytes
    pub has_header : request.header "x-hub-signature-256" ≡ some header
    pub stripped : strip_prefix "sha256=" header ≡ some text
    pub decoded : X.hex_decode text ≡ some signature
    pub verified : X.hmac_verify secret request.body signature ≡ true

  pub verify_signature_iff :
      (secret : String) (request : Request)
      → (verify_signature X secret
            (unwrap_or_default (request.header "x-hub-signature-256"))
            request.body
          ≡ true)
        ↔ IsSigned secret request
  unfolding verify_signature strip_prefix
  verify_signature_iff secret request =
      (from_header (request.header "x-hub-signature-256") refl, to)
    where
      from_signature :
          (header text : String)
          → request.header "x-hub-signature-256" ≡ some header
          → strip_prefix "sha256=" header ≡ some text
          → (o : Option Bytes) → X.hex_decode text ≡ o
          → verify_decoded X secret request.body o ≡ true
          → IsSigned secret request
      from_signature header text e f none g h = cc
      from_signature header text e f (some signature) g h = record {
        secret_lem = λ q. ground (arith, h, eq_iff secret "", q);
        header = header;
        text = text;
        signature = signature;
        has_header = e;
        stripped = f;
        decoded = g;
        verified = ground (arith, h);
      }

      from_text :
          (header : String)
          → request.header "x-hub-signature-256" ≡ some header
          → (o : Option String) → strip_prefix "sha256=" header ≡ o
          → verify_stripped X secret request.body o ≡ true
          → IsSigned secret request
      from_text header e none f h = cc
      from_text header e (some text) f h = from_signature header text e f (X.hex_decode text) refl h

      from_header :
          (o : Option String)
          → request.header "x-hub-signature-256" ≡ o
          → verify_signature X secret (unwrap_or_default o) request.body ≡ true
          → IsSigned secret request
      from_header none e h = cc
      from_header (some header) e h = from_text header e (strip_prefix "sha256=" header) refl h

      to :
          IsSigned secret request
          → verify_signature X secret
              (unwrap_or_default (request.header "x-hub-signature-256"))
              request.body
            ≡ true
      to s =
          ap
            (λ o.
              verify_stripped X secret request.body (strip_prefix "sha256=" (unwrap_or_default o)))
            s.has_header
          ∙ ap (verify_stripped X secret request.body) s.stripped
          ∙ ap (verify_decoded X secret request.body) s.decoded
          ∙ ground (arith, eq_iff secret "", s.secret_lem, s.verified)
