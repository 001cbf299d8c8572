-- ===== src/Callback/Tokens.antt =====
-- What a token authorises.
use Prim.Native.Char.{Char, code}
use Prim.Native.String.{◌++◌ as ◌<>◌}
use text.Mathlib.TextLemmas.{nil-append, cons-append}
use state_graph.Prelude.{
  String, ℕ, ℤ, ◌+◌, ◌≤◌, ◌≡◌, refl, sym, ap, ◌∙◌, ◌≢◌, ◌↔◌, inl, inr, Bool, true, false, Option,
  none, some, length, ltb, arith, eq_iff, eq_refl, Option-cases, if◌then◌else◌,
}
use state_graph.Values.{invalid_token, secret_too_short}
use state_graph.Exec.{ok-injective, Result, ok, err, panics, running}
use state_graph.Callback.Token.{
  Bytes, TokenPayload, TokenClaims, Crypto, is_dot, split_dot, token_ttl, sign,
  generate_state_token, payload_of, unless_expired, read_claims, check_parts, validate_state_token,
}

abbrev pub IsDotFree : String → Type 0
IsDotFree String.[] = Unit
IsDotFree (String.◌∷◌ c s) = (code c ≢ 46) × IsDotFree s

dot : Char
dot = "."

split-nil : (x : String) → split_dot (String.[] <> "." <> x) ≡ some (String.[], x)
unfolding split_dot dot
split-nil x =
    ap split_dot (nil-append _ ∙ cons-append dot String.[] x ∙ ap (String.◌∷◌ dot) (nil-append x))

not_dot : (c : Char) → code c ≢ 46 → is_dot c ≡ false
not_dot c h = ground arith

-- an encoded payload without a dot is read back as it was joined
pub split-join : (s x : String) → IsDotFree s → split_dot (s <> "." <> x) ≡ some (s, x)
unfolding split_dot
split-join String.[] x h = split-nil x
split-join (String.◌∷◌ c s) x h =
    ap split_dot (cons-append c s _) ∙ rw (not_dot c h.0, split-join s x h.1) refl

-- What the packages document of the claims that `Marshal` accepts: the URL alphabet of base64 has no
-- dot, decoding undoes encoding, and `Unmarshal` undoes `Marshal`.
pub record Documented (crypto : Crypto) : Type 0 where
  pub encode-IsDotFree :
      (c : TokenClaims) (s : String) → crypto.marshal c ≡ ok s → IsDotFree (crypto.encode s)
  pub decode-encode :
      (c : TokenClaims) (s : String)
      → crypto.marshal c ≡ ok s
      → crypto.decode (crypto.encode s) ≡ some s
  pub unmarshal-marshal :
      (c : TokenClaims) (s : String) → crypto.marshal c ≡ ok s → crypto.unmarshal s ≡ some c

-- what makes a token valid at a time
pub record Accepted (crypto : Crypto) (now : ℕ) (token : String) (secret : Bytes) (p : TokenPayload)
    : Type 0 where
  pub encoded : String
  pub raw : String
  pub claims : TokenClaims
  pub signed : split_dot token ≡ some (encoded, crypto.hmac secret encoded)
  pub decoded : crypto.decode encoded ≡ some raw
  pub read : crypto.unmarshal raw ≡ some claims
  pub current : now ≤ claims.expires_at
  pub payload : p ≡ payload_of claims

not_expired : (now expires : ℕ) → now ≤ expires → ltb expires now ≡ false
not_expired now expires h = ground arith

abbrev claims_of : ℕ → String → String → ℤ → TokenClaims
claims_of now exec_id name attempt = record {
  exec_id = exec_id;
  state_name = name;
  attempt = attempt;
  expires_at = now + token_ttl;
}

module _ (crypto : Crypto) where
  checked :
      (now : ℕ) (secret : Bytes) (encoded sig : String) (p : TokenPayload)
      → check_parts crypto now secret (some (encoded, sig)) ≡ ok p
      → (sig ≡ crypto.hmac secret encoded) × (read_claims crypto now (crypto.decode encoded) ≡ ok p)
  checked now secret encoded sig p h = ground (arith, eq_iff sig (crypto.hmac secret encoded))

  read-claims :
      (now : ℕ) (o : Option String) (p : TokenPayload)
      → read_claims crypto now o ≡ ok p
      → (raw : String) × (o ≡ some raw) × (unless_expired crypto now (crypto.unmarshal raw) ≡ ok p)
  read-claims now none p h = cc
  read-claims now (some raw) p h = (raw, refl, h)

  read-current :
      (now : ℕ) (o : Option TokenClaims) (p : TokenPayload)
      → unless_expired crypto now o ≡ ok p
      → (c : TokenClaims) × (o ≡ some c) × (now ≤ c.expires_at) × (p ≡ payload_of c)
  read-current now none p h = cc
  read-current now (some c) p h = (c, refl, ground arith, ground arith)

  validate-Accepted :
      (now : ℕ) (token : String) (secret : Bytes) (p : TokenPayload)
      → validate_state_token crypto now token secret ≡ ok p
      → Accepted crypto now token secret p
  unfolding validate_state_token
  validate-Accepted now token secret p h = elim (Option-cases (split_dot token)) [
    | inl e ↦ cc (rw e at h)
    | inr ((encoded, sig), e) ↦
        let (signed, h') = checked now secret encoded sig p (rw (e, validate_state_token) at h) in
        let (raw, decoded, h'') = read-claims now (crypto.decode encoded) p h' in
        let (claims, read, current, payload) = read-current now (crypto.unmarshal raw) p h'' in
        record {
          encoded = encoded;
          raw = raw;
          claims = claims;
          signed = e ∙ ap (λ x. some (encoded, x)) signed;
          decoded = decoded;
          read = read;
          current = current;
          payload = payload;
        }
  ]

  Accepted-validate :
      (now : ℕ) (token : String) (secret : Bytes) (p : TokenPayload)
      → Accepted crypto now token secret p
      → validate_state_token crypto now token secret ≡ ok p
  unfolding validate_state_token
  Accepted-validate now token secret p a =
      rw
        (
          a.signed,
          eq_refl,
          a.decoded,
          a.read,
          not_expired now a.claims.expires_at a.current,
          a.payload,
        )
        refl

  -- A token is accepted with a payload exactly if its part after the first dot is the signature of
  -- the part before it, that part decodes to claims with this payload, and they have not expired.
  pub validate_state_token_iff :
      (now : ℕ) (token : String) (secret : Bytes) (p : TokenPayload)
      → (validate_state_token crypto now token secret ≡ ok p) ↔ Accepted crypto now token secret p
  validate_state_token_iff now token secret p =
      (validate-Accepted now token secret p, Accepted-validate now token secret p)

  generated :
      (now : ℕ) (exec_id name : String) (attempt : ℤ) (secret : Bytes) (token : String)
      → generate_state_token crypto now exec_id name attempt secret ≡ ok token
      → (raw : String) × (crypto.marshal (claims_of now exec_id name attempt) ≡ ok raw)
        × (token ≡ crypto.encode raw <> "." <> crypto.hmac secret (crypto.encode raw))
  unfolding generate_state_token
  generated now exec_id name attempt secret token h =
      signed_token (ltb (length secret) 32) (crypto.marshal (claims_of now exec_id name attempt)) h
    where
      signed_token :
          (short : Bool) (r : Result String)
          → (if short then err secret_too_short else sign crypto secret r) ≡ ok token
          → (raw : String) × (r ≡ ok raw)
            × (token ≡ crypto.encode raw <> "." <> crypto.hmac secret (crypto.encode raw))
      signed_token true r h = cc
      signed_token false (ok raw) h = (raw, refl, ok-injective (sym h))
      signed_token false (err e) h = cc
      signed_token false panics h = cc
      signed_token false running h = cc

  -- A token that was generated for a state is accepted with that execution, state and attempt until
  -- its 24 hours are over, and refused as invalid afterwards.
  pub validate-generate :
      (documented : Documented crypto) (now later : ℕ) (exec_id name : String) (attempt : ℤ)
      (secret : Bytes) (token : String)
      → generate_state_token crypto now exec_id name attempt secret ≡ ok token
      → validate_state_token crypto later token secret ≡ (
          if ltb (now + 86400) later
          then err invalid_token
          else ok (record {
            exec_id = exec_id;
            state = name;
            attempt = attempt;
            expires_at = now + 86400;
          }))
  unfolding validate_state_token
  validate-generate documented now later exec_id name attempt secret token h =
      let (raw, marshalled, joined) = generated now exec_id name attempt secret token h in
      rw
        (
          joined,
          split-join (crypto.encode raw) (crypto.hmac secret (crypto.encode raw))
              (documented.encode-IsDotFree _ raw marshalled),
          eq_refl,
          documented.decode-encode _ raw marshalled,
          documented.unmarshal-marshal _ raw marshalled,
        )
        refl
