-- ===== src/Cli.antt =====
-- cmd/kflow/client.go, auth.go, workflow.go, execution.go and service.go: the command line as a client
-- of the control plane.
pub mod Login
pub mod Logs
use Prim.Native.String.{◌++◌ as ◌<>◌}
use state_graph.Prelude.{String, ℕ, leb, ◌==◌, Option, none, some, if◌then◌else◌}
use state_graph.Values.{Error, wrapped, external}
use state_graph.Exec.{Result, Exec, pure, raise, of_result, branch, ◌>>=◌, ◌>>◌}

-- JSON, as far as the commands look into it; any other value is `other`.
mutual
  pub data Json : Type 0 where
    text : String → Json
    other : Json
    array : Items → Json
    object : Fields → Json

  pub data Items : Type 0 where
    end : Items
    item : Json → Items → Items

  pub data Fields : Type 0 where
    none_left : Fields
    field : String → Json → Fields → Fields

abbrev pub get : String → Fields → Option Json
get key none_left = none
get key (field name value rest) =
    let later = get key rest in if name == key then some value else later

-- v.(string), or "" otherwise
abbrev pub as_text : Option Json → String
as_text (some (text s)) = s
as_text _ = ""

pub record CliRequest : Type 0 where
  pub method : String
  pub url : String
  pub authorization : String
  pub body : Option Json

-- The flags, the environment, the token file ~/.kflow/token, and what the code uses of
-- `encoding/json` and `net/http`: the error of marshalling a body, that of building a request for a
-- URL, the status and the text of an answer, and the object that a text encodes. Removing a file that
-- is not there is no error.
pub record Machine (W : Type 0) : Type 0 where
  pub server_flag : String
  pub api_key_flag : String
  pub getenv : String → String
  pub read_token : W → Option String
  pub write_token : String → Exec W (Unit {0})
  pub remove_token : Exec W (Unit {0})
  pub marshal_error : Json → Option Error
  pub request_error : String → Option Error
  pub send : CliRequest → Exec W (ℕ × String)
  pub decode : String → Result Fields

abbrev pub text_or_empty : Option String → String
text_or_empty none = ""
text_or_empty (some s) = s

abbrev pub body_error : (Json → Option Error) → Option Json → Option Error
body_error marshal none = none
body_error marshal (some body) = marshal body

abbrev pub unless_failed : {W A : Type 0} → String → Option Error → Exec W A → Exec W A
unless_failed what none next = next
unless_failed what (some e) next = raise (wrapped what "" e)

abbrev pub authorization_of : String → String
authorization_of bearer = if bearer == "" then "" else "Bearer " <> bearer

abbrev pub key_body : String → Option Json
key_body key = some (object (field "api_key" (text key) none_left))

module _ {W : Type 0} (m : Machine W) where
  abbrev pub load_saved_token : W → String
  load_saved_token w = text_or_empty (m.read_token w)

  abbrev pub resolve_bearer : W → String
  resolve_bearer w = if m.api_key_flag == "" then load_saved_token w else m.api_key_flag

  abbrev pub resolve_api_key : String
  resolve_api_key = if m.api_key_flag == "" then m.getenv "KFLOW_API_KEY" else m.api_key_flag

  abbrev pub read_answer : ℕ × String → Exec W Fields
  read_answer (status, answer) =
      if leb 400 status
      then raise (external "server error")
      else if answer == ""
      then pure none_left
      else branch (of_result (m.decode answer)) pure (λ e. raise (wrapped "decode response" "" e))

  unfoldable pub do_json_with_bearer : String → String → Option Json → String → Exec W Fields
  do_json_with_bearer method path body bearer =
      unless_failed "marshal request" (body_error m.marshal_error body) (
        unless_failed "build request" (m.request_error (m.server_flag <> path)) (
          branch
            (m.send (record {
              method = method;
              url = m.server_flag <> path;
              authorization = authorization_of bearer;
              body = body;
            }))
            read_answer (λ e. raise (wrapped "request" "" e))))

  unfoldable pub do_json : String → String → Option Json → Exec W Fields
  unfolding do_json_with_bearer
  do_json method path body w = do_json_with_bearer method path body (resolve_bearer w) w

  unfoldable pub do_json_no_auth : String → String → Option Json → Exec W Fields
  unfolding do_json_with_bearer
  do_json_no_auth method path body = do_json_with_bearer method path body ""

  -- `auth token`, with the token that it prints
  unfoldable pub auth_token : Exec W String
  unfolding do_json_no_auth
  auth_token =
      if resolve_api_key == ""
      then raise (external "--api-key flag or KFLOW_API_KEY env var required")
      else branch (do_json_no_auth "POST" "/api/v1/auth/token" (key_body resolve_api_key))
          (λ result. pure (as_text (get "token" result))) raise

  -- `auth login`, with what it prints
  unfoldable pub auth_login : Exec W String
  unfolding auth_token
  auth_login = do
    token ← auth_token
    m.write_token token
    pure "Logged in. Token saved to ~/.kflow/token"

  unfoldable pub auth_logout : Exec W String
  auth_logout =
      branch m.remove_token (λ _. pure "Logged out.") (λ e. raise (wrapped "remove token" "" e))

  -- the commands that print the answer; `fields` is what the file or the flag holds
  abbrev pub workflow_register : Fields → Exec W Fields
  workflow_register fields = do_json "POST" "/api/v1/workflows" (some (object fields))

  abbrev pub workflow_list : Exec W Fields
  workflow_list = do_json "GET" "/api/v1/workflows" none

  abbrev pub workflow_run : String → Fields → Exec W Fields
  workflow_run name input =
      do_json "POST" ("/api/v1/workflows/" <> (name <> "/run"))
        (some (object (field "input" (object input) none_left)))

  abbrev pub execution_get : String → Exec W Fields
  execution_get id = do_json "GET" ("/api/v1/executions/" <> id) none

  -- the name is not escaped
  abbrev pub execution_list : String → Exec W Fields
  execution_list workflow =
      do_json "GET"
        ("/api/v1/executions" <> (if workflow == "" then "" else "?workflow=" <> workflow)) none

  abbrev pub service_list : Exec W Fields
  service_list = do_json "GET" "/api/v1/services" none

  abbrev pub service_get : String → Exec W Fields
  service_get name = do_json "GET" ("/api/v1/services/" <> name) none

  abbrev pub service_delete : String → Exec W Fields
  service_delete name = do_json "DELETE" ("/api/v1/services/" <> name) none
