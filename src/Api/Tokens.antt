-- ===== src/Api/Tokens.antt =====
-- How long a session token is accepted (internal/api/auth_handler.go, auth_middleware.go).
use state_graph.Prelude.{String, ◌+◌, ◌≡◌, refl, sym, false, ◌==◌, eq_refl, ltb, some, arith}
use state_graph.Exec.{Result, ok, err, ok-injective}
use state_graph.Store.{Time}
use state_graph.Callback.Tokens.{IsDotFree, split-join}
use state_graph.Api.Sessions.{
  TokenPayload, Signing, issue_session_token, validate_token, sign, signed_text,
}

-- What the documentation says of base64 and of JSON: the base64 alphabet has no dot, and what was
-- encoded or marshalled is read back.
pub record Documented (signing : Signing) : Type 0 where
  pub encode-IsDotFree :
      (p : TokenPayload) (s : String) → signing.marshal p ≡ ok s → IsDotFree (signing.encode s)
  pub decode-encode : (s : String) → signing.decode (signing.encode s) ≡ some s
  pub unmarshal-marshal :
      (p : TokenPayload) (s : String) → signing.marshal p ≡ ok s → signing.unmarshal s ≡ some p

sign-ok :
    (signing : Signing) (key text : String) (r : Result String)
    → sign signing key r ≡ ok text
    → (payload : String) × (r ≡ ok payload) × (text ≡ signed_text signing key payload)
sign-ok signing key text (ok payload) h = (payload, refl, sym (ok-injective h))
sign-ok signing key text (err e) h = absurd (ground (arith, h))
sign-ok signing key text Result.panics h = absurd (ground (arith, h))
sign-ok signing key text Result.running h = absurd (ground (arith, h))

-- A session token that is not the key itself is accepted, under the key that it was issued with, for
-- 24 hours and no longer.
pub validate_token-issue_session_token :
    (signing : Signing)
    → Documented signing
    → (now later : Time) (api_key text : String) → issue_session_token signing now api_key ≡ ok text
    → (text == api_key) ≡ false
    → validate_token signing later text api_key ≡ ltb later (now + 86400)
unfolding issue_session_token validate_token
validate_token-issue_session_token signing documented now later api_key text h not_key =
    let (payload, marshalled, e) = sign-ok signing api_key text _ h in
    rw
      (
        not_key,
        e,
        split-join (signing.encode payload) (signing.encode (signing.hmac api_key payload))
            (documented.encode-IsDotFree _ payload marshalled),
        documented.decode-encode payload,
        documented.decode-encode (signing.hmac api_key payload),
        eq_refl,
        documented.unmarshal-marshal _ payload marshalled,
      )
      refl
