-- ===== src/Gateway/Auth.antt =====
-- The API key: internal/grpc/gateway.go (authMiddleware and the routes beside it), interceptors.go
-- and token_auth.go.
use Prim.Native.Char.{Char, code}
use Prim.Native.Nat.{compare, Ordering}
use state_graph.Prelude.{String, ◌==◌, Option, none, some, List, [], ◌∷◌, if◌then◌else◌}
use state_graph.Values.{permission_denied, internal, external}
use state_graph.Exec.{Result, ok, err, panics, Exec, pure, raise}

abbrev pub head_is : Char → Char → Option String → Option String
head_is c d rest = elim (compare (code c) (code d)) [ Ordering.eq ↦ rest | _ ↦ none ]

-- strings.CutPrefix(s, prefix)
unfoldable pub cut_prefix : String → String → Option String
cut_prefix String.[] s = some s
cut_prefix (String.◌∷◌ c p) String.[] = none
cut_prefix (String.◌∷◌ c p) (String.◌∷◌ d s) = head_is c d (cut_prefix p s)

-- a credential that is not empty
abbrev pub unless_none : Option String → String → String
unless_none none other = other
unless_none (some t) other = if t == "" then other else t

-- the credential of a request, from its header or, if that has none, from ?token=
unfoldable pub provided_token : String → String → String
unfolding cut_prefix
provided_token header query = unless_none (cut_prefix "Bearer " header) query

-- The metadata of a call that has some, by the values of "authorization".
unfoldable pub extract_bearer_token : Option (List String) → String
unfolding cut_prefix
extract_bearer_token none = ""
extract_bearer_token (some []) = ""
extract_bearer_token (some (v ∷ vs)) = unless_none (cut_prefix "Bearer " v) ""

module _ {W R : Type 0} where
  -- `unauthorized` is the answer with status 401. The constant-time comparison is one of texts.
  unfoldable pub auth_middleware : String → R → String → String → Exec W R → Exec W R
  unfolding provided_token
  auth_middleware api_key unauthorized header query next =
      if api_key == ""
      then next
      else if provided_token header query == api_key
      then next
      else pure unauthorized

  unfoldable pub unary_auth_interceptor : String → Option (List String) → Exec W R → Exec W R
  unfolding extract_bearer_token
  unary_auth_interceptor api_key metadata handler =
      if api_key == ""
      then handler
      else if extract_bearer_token metadata == api_key
      then handler
      else raise (permission_denied "invalid or missing API key")

  abbrev pub recovered : Result R × W → Result R × W
  recovered (panics, w) = (err (internal (external "internal server error")), w)
  recovered outcome = outcome

  unfoldable pub unary_recovery_interceptor : Exec W R → Exec W R
  unary_recovery_interceptor handler w = recovered (handler w)

unfoldable pub validate_bearer_token : String → String → Result (Unit {0})
validate_bearer_token provided expected =
    if provided == expected then ok tt else err (external "grpc: invalid bearer token")
