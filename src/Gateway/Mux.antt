-- ===== src/Gateway/Mux.antt =====
-- internal/grpc/gateway.go, NewGatewayMux: the routes of the public server.

use state_graph.Prelude.{String, ℕ, Bool, ◌&&◌, ◌||◌, ◌==◌, List, [], ◌∷◌, if◌then◌else◌}
use state_graph.Exec.{Exec, pure, inspect, ◌>>=◌}
use state_graph.Gateway.Auth.{auth_middleware}

-- a request with a body of type `B`; `token` is ?token=
pub record HttpRequest (B : Type 0) : Type 0 where
  pub method : String
  pub path : String
  pub authorization : String
  pub token : String
  pub body : B

pub record HttpResponse : Type 0 where
  pub status : ℕ
  pub headers : List (String × String)
  pub text : String

abbrev pub answer_text : ℕ → String → HttpResponse
answer_text status text = record { status = status; headers = []; text = text }

-- a pattern "GET path" of net/http takes HEAD too
abbrev pub gets : {B : Type 0} → String → HttpRequest B → Bool
gets path r = (r.method == "GET" || r.method == "HEAD") && r.path == path

-- the answer of authMiddleware to a request without the key
abbrev pub unauthorized : HttpResponse
unauthorized = answer_text 401 "{\"error\":\"unauthorized\"}"

abbrev pub with_header : String → String → HttpResponse → HttpResponse
with_header name value r = record r { headers = (name, value) ∷ r.headers }

-- The readiness flag, the handlers of web sockets, and the handler that protoc generates for the
-- four services.
pub record Backend (B W : Type 0) : Type 0 where
  pub ready : W → Bool
  pub serve_ws : HttpRequest B → Exec W HttpResponse
  pub serve_logs_ws : HttpRequest B → Exec W HttpResponse
  pub gateway : HttpRequest B → Exec W HttpResponse

abbrev pub readyz : {W : Type 0} → (W → Bool) → Exec W HttpResponse
readyz ready =
    inspect λ w. if ready w then pure (answer_text 200 "ok") else pure (answer_text 503 "not ready")

abbrev pub auth_status : String → HttpResponse
auth_status api_key = with_header "Content-Type" "application/json" (
    answer_text 200
      (if api_key == "" then "{\"auth_enabled\":false}" else "{\"auth_enabled\":true}"))

module _ {B W : Type 0} where
  abbrev pub secure_headers :
      (HttpRequest B → Exec W HttpResponse) → HttpRequest B → Exec W HttpResponse
  secure_headers next r = do
    answer ← next r
    pure (
        with_header "X-Content-Type-Options" "nosniff"
          (with_header "X-Frame-Options" "DENY" answer))

  abbrev pub guarded :
      String → (HttpRequest B → Exec W HttpResponse) → HttpRequest B → Exec W HttpResponse
  guarded api_key next r = auth_middleware api_key unauthorized r.authorization r.token (next r)

  unfoldable pub serve : String → Backend B W → HttpRequest B → Exec W HttpResponse
  unfolding auth_middleware
  serve api_key b r =
      if gets "/healthz" r
      then pure (answer_text 200 "ok")
      else if gets "/readyz" r
      then readyz b.ready
      else if gets "/api/v1/auth/status" r
      then pure (auth_status api_key)
      else if r.path == "/api/v1/ws"
      then guarded api_key b.serve_ws r
      else if r.path == "/api/v1/ws/logs"
      then guarded api_key b.serve_logs_ws r
      else guarded api_key (secure_headers b.gateway) r
