-- ===== src/Api/Sessions.antt =====
-- internal/api/auth_middleware.go and auth_handler.go: the API key and the session tokens.
use Prim.Native.String.{◌++◌ as ◌<>◌}
use state_graph.Prelude.{
  String, ◌+◌, Bool, false, not, ◌&&◌, ◌||◌, ◌==◌, ltb, Option, none, some, if◌then◌else◌,
}
use state_graph.Exec.{Result, ok, Exec, pure, inspect, branch, of_result}
use state_graph.Store.{Time}
use state_graph.Callback.Token.{split_dot}
use state_graph.Telemetry.Filter.{has_prefix}
use state_graph.Gateway.Auth.{cut_prefix}
use state_graph.Api.{Response, problem, success, internal_error, token, auth_enabled}

-- The times count seconds.
pub record TokenPayload : Type 0 where
  pub issued_at : Time
  pub expires_at : Time

-- What the code uses of `encoding/json`, `encoding/base64` and `crypto/hmac`.
pub record Signing : Type 0 where
  pub marshal : TokenPayload → Result String
  pub unmarshal : String → Option TokenPayload
  pub encode : String → String
  pub decode : String → Option String
  pub hmac : String → String → String  -- by the key, then the message

abbrev is_exempt : String → String → Bool
is_exempt method path =
    path == "/healthz"
    || (path == "/readyz"
        || (path == "/api/v1/auth/status" || (method == "POST" && path == "/api/v1/auth/token")))

-- strings.HasSuffix
abbrev has_suffix : String → String → Bool
has_suffix suffix String.[] = suffix == ""
has_suffix suffix (String.◌∷◌ c s) =
    let rest = has_suffix suffix s in String.◌∷◌ c s == suffix || rest

abbrev is_stream : String → Bool
is_stream path = has_prefix "/api/v1/ws" path || has_suffix "/stream" path

abbrev text_or : Option String → String → String
text_or none other = other
text_or (some t) other = t

-- the text after "Bearer ", or ?token= for streams
unfoldable pub request_token : Bool → String → String → String
unfolding cut_prefix
request_token of_stream header query =
    text_or (cut_prefix "Bearer " header) (if of_stream then query else "")

module _ (signing : Signing) where
  abbrev pub is_current : Time → Option TokenPayload → Bool
  is_current now none = false
  is_current now (some p) = ltb now p.expires_at

  abbrev check_signature : Time → String → String → Option String → Bool
  check_signature now api_key payload none = false
  check_signature now api_key payload (some actual) =
      signing.hmac api_key payload == actual && is_current now (signing.unmarshal payload)

  abbrev check_payload : Time → String → String → Option String → Bool
  check_payload now api_key signature none = false
  check_payload now api_key signature (some payload) =
      check_signature now api_key payload (signing.decode signature)

  abbrev check_session : Time → String → Option (String × String) → Bool
  check_session now api_key none = false
  check_session now api_key (some (payload, signature)) =
      check_payload now api_key signature (signing.decode payload)

  unfoldable pub validate_token : Time → String → String → Bool
  unfolding split_dot
  validate_token now text api_key = text == api_key || check_session now api_key (split_dot text)

  abbrev pub signed_text : String → String → String
  signed_text api_key payload =
      signing.encode payload <> ("." <> signing.encode (signing.hmac api_key payload))

  abbrev pub sign : String → Result String → Result String
  sign api_key (ok payload) = ok (signed_text api_key payload)
  sign api_key other = other

  -- 24 hours from now
  unfoldable pub issue_session_token : Time → String → Result String
  issue_session_token now api_key =
      sign api_key (signing.marshal (record { issued_at = now; expires_at = now + 86400 }))

  module _ {W : Type 0} (now : W → Time) where
    -- the method, the path, the header and ?token= of a request
    unfoldable pub bearer_auth_middleware :
        String → String → String → String → String → Exec W Response → Exec W Response
    unfolding request_token validate_token
    bearer_auth_middleware api_key method path header query next =
        if api_key == "" || is_exempt method path
        then next
        else if request_token (is_stream path) header query == ""
        then pure (problem 401 "unauthorized" "auth_required")
        else inspect λ w.
          if validate_token (now w) (request_token (is_stream path) header query) api_key
          then next
          else pure (problem 401 "unauthorized" "auth_required")

    -- The body's key is `none` where json.Decoder refuses the body.
    unfoldable pub handle_auth_token : String → Option String → Exec W Response
    unfolding issue_session_token
    handle_auth_token api_key none = pure (problem 400 "invalid request body" "bad_request")
    handle_auth_token api_key (some given) =
        if not (given == api_key)
        then pure (problem 401 "invalid api key" "auth_invalid")
        else inspect λ w.
          branch (of_result (issue_session_token (now w) api_key))
            (λ t. pure (success 200 (token t))) (λ _. pure (internal_error "failed to issue token"))

    unfoldable pub handle_auth_status : String → Exec W Response
    handle_auth_status api_key = pure (success 200 (auth_enabled (not (api_key == ""))))
