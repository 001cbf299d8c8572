-- ===== src/Cli/Login.antt =====
-- The commands of `auth` against the public server of the control plane.
use Prim.Native.String.{◌++◌ as ◌<>◌}
use state_graph.Prelude.{String, ◌≡◌, refl, Option, none, some, false, ◌==◌, arith, eq_iff}
use state_graph.Values.{external}
use state_graph.Exec.{err, pure, raise, branch}
use state_graph.Gateway.Auth.{cut_prefix, provided_token, auth_middleware}
use state_graph.Gateway.Mux.{HttpRequest, Backend, serve}
use state_graph.Cli.{
  Json, Machine, resolve_api_key, do_json_with_bearer, do_json_no_auth, key_body, auth_token,
  auth_login,
}

-- a request of the command line, as the server reads it
abbrev pub received : String → String → String → Option Json → HttpRequest (Option Json)
received method path authorization body = record {
  method = method;
  path = path;
  authorization = authorization;
  token = "";
  body = body;
}

no_key : (key : String) → (key == "") ≡ false → ("" == key) ≡ false
no_key key h = ground (arith, eq_iff key "", eq_iff "" key)

module _ {W : Type 0} (m : Machine W) (api_key : String) (b : Backend (Option Json) W) where
  -- The request for a token can be marshalled and built, and reaches the public server.
  pub record Delivers (body : Option Json) : Type 0 where
    pub marshals : (sent : Json) → body ≡ some sent → m.marshal_error sent ≡ none
    pub builds : m.request_error (m.server_flag <> "/api/v1/auth/token") ≡ none
    pub sends :
        (w : W)
        → m.send
            (record {
              method = "POST";
              url = m.server_flag <> "/api/v1/auth/token";
              authorization = "";
              body = body;
            })
            w
          ≡ branch
              (serve api_key b (received "POST" "/api/v1/auth/token" "" body))
              (λ r. pure (r.status, r.text))
              raise
              w

  -- Against a server that has an API key, `auth login` with any key, the right one included, ends in
  -- the error of a status of at least 400, and neither the token file nor the server has changed: the
  -- request for a token, if it can be marshalled and built and reaches the server, has no credential,
  -- and the server has no route for it that needs none.
  pub auth_login-refused :
      (w : W)
      → Delivers (key_body (resolve_api_key m))
      → (api_key == "") ≡ false
      → (resolve_api_key m == "") ≡ false
      → auth_login m w ≡ (err (external "server error"), w)
  unfolding auth_login auth_token do_json_no_auth do_json_with_bearer serve auth_middleware
      provided_token cut_prefix branch pure raise
  auth_login-refused w delivers keyed given =
      rw
        (
          given,
          delivers.marshals _ refl,
          delivers.builds,
          delivers.sends w,
          keyed,
          no_key api_key keyed,
        )
        refl
