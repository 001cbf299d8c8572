-- ===== src/Callback/Token.antt =====
-- internal/runner/token.go: the signed tokens with which a job calls back.
use Prim.Native.Char.{Char, code}
use Prim.Native.Nat.{compare, Ordering}
use Prim.Native.String.{◌++◌ as ◌<>◌}
use state_graph.Prelude.{
  String, ℕ, ℤ, ◌+◌, Bool, true, false, not, ◌==◌, Option, none, some, List, length, ltb,
  if◌then◌else◌,
}
use state_graph.Values.{secret_too_short, invalid_token, token_not_marshalled}
use state_graph.Exec.{Result, ok, err}

abbrev pub Bytes : Type 0
Bytes = List ℕ

-- 24 hours, in seconds
abbrev pub token_ttl : ℕ
token_ttl = 86400

pub record TokenPayload : Type 0 where
  pub exec_id : String
  pub state : String
  pub attempt : ℤ
  pub expires_at : ℕ

pub record TokenClaims : Type 0 where
  pub exec_id : String
  pub state_name : String
  pub attempt : ℤ
  pub expires_at : ℕ

-- What the code uses of `encoding/json`, `encoding/base64` and `crypto/hmac`: `hmac` is the encoded
-- sum, as computeHMAC returns it.
pub record Crypto : Type 0 where
  pub marshal : TokenClaims → Result String
  pub unmarshal : String → Option TokenClaims
  pub encode : String → String
  pub decode : String → Option String
  pub hmac : Bytes → String → String

abbrev pub is_dot : Char → Bool
is_dot c = elim (compare (code c) 46) [ Ordering.eq ↦ true | _ ↦ false ]

abbrev pub prepend : Char → Option (String × String) → Option (String × String)
prepend c none = none
prepend c (some (s, t)) = some (String.◌∷◌ c s, t)

-- strings.SplitN(token, ".", 2), if it has two parts
unfoldable pub split_dot : String → Option (String × String)
split_dot String.[] = none
split_dot (String.◌∷◌ c s) = if is_dot c then some (String.[], s) else prepend c (split_dot s)

abbrev pub payload_of : TokenClaims → TokenPayload
payload_of claims = record {
  exec_id = claims.exec_id;
  state = claims.state_name;
  attempt = claims.attempt;
  expires_at = claims.expires_at;
}

module _ (crypto : Crypto) where
  abbrev pub sign : Bytes → Result String → Result String
  sign secret (ok payload) =
      ok (crypto.encode payload <> "." <> crypto.hmac secret (crypto.encode payload))
  sign secret (err e) = err (token_not_marshalled e)
  sign secret Result.panics = Result.panics
  sign secret Result.running = Result.running

  -- `now` is time.Now().Unix()
  unfoldable pub generate_state_token : ℕ → String → String → ℤ → Bytes → Result String
  generate_state_token now exec_id state_name attempt secret =
      if ltb (length secret) 32
      then err secret_too_short
      else sign secret (
          crypto.marshal (record {
            exec_id = exec_id;
            state_name = state_name;
            attempt = attempt;
            expires_at = now + token_ttl;
          }))

  abbrev pub unless_expired : ℕ → Option TokenClaims → Result TokenPayload
  unless_expired now none = err invalid_token
  unless_expired now (some claims) =
      if ltb claims.expires_at now then err invalid_token else ok (payload_of claims)

  abbrev pub read_claims : ℕ → Option String → Result TokenPayload
  read_claims now none = err invalid_token
  read_claims now (some raw) = unless_expired now (crypto.unmarshal raw)

  abbrev pub check_parts : ℕ → Bytes → Option (String × String) → Result TokenPayload
  check_parts now secret none = err invalid_token
  check_parts now secret (some (encoded, sig)) =
      if not (sig == crypto.hmac secret encoded)
      then err invalid_token
      else read_claims now (crypto.decode encoded)

  unfoldable pub validate_state_token : ℕ → String → Bytes → Result TokenPayload
  validate_state_token now token secret = check_parts now secret (split_dot token)
