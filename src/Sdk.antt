-- ===== src/Sdk.antt =====
-- pkg/kflow/runner.go and the entry point of worker.go: a workflow's program as a client of the
-- control plane.
pub mod Served
use Prim.Native.String.{◌++◌ as ◌<>◌}
use state_graph.Prelude.{
  String, ℕ, ℤ, leb, Bool, true, false, ◌&&◌, ◌||◌, not, ◌==◌, Option, none, some, List, [], ◌∷◌,
  if◌then◌else◌,
}
use state_graph.Values.{Obj, Error, wrapped, external}
use state_graph.Exec.{Exec, pure, raise, of_result, branch, ◌>>=◌, ◌>>◌}
use state_graph.Workflow.{Workflow}
use state_graph.Workflow.Validate.{validate}
use state_graph.Graph.{WorkflowGraph}
use state_graph.Store.{ServiceMode, deployment, lambda}
use state_graph.Service.{ServiceDef, validate_service}
use state_graph.Local.{LocalRuntime, build_local_graph, run_local_graph}
use state_graph.Local.Json.{to_register_json}
use state_graph.Worker.{Process, dispatch_worker}

pub record ServiceJson : Type 0 where
  pub name : String
  pub mode : String
  pub port : ℤ
  pub min_scale : ℤ
  pub max_scale : ℤ
  pub ingress_host : String
  pub timeout_seconds : ℤ

-- what is marshalled
pub data Body : Type 0 where
  workflow_body : WorkflowGraph → Body
  input_body : Obj → Body
  service_body : ServiceJson → Body

-- a POST with a JSON body
pub record Post : Type 0 where
  pub url : String
  pub authorization : String
  pub body : Body

-- The environment, and what the code uses of `encoding/json`, `net/http` and `time`: the error of
-- marshalling a body, that of building a request, and the status and the text of an answer.
pub record Client (W : Type 0) : Type 0 where
  pub getenv : String → String
  pub marshal_error : Body → Option Error
  pub request_error : String → Option Error
  pub send : Post → Exec W (ℕ × String)
  pub seconds : ℤ → ℤ

abbrev pub is_status : ℕ → ℕ → Bool
is_status a b = leb a b && leb b a

abbrev pub unless_error : {W A : Type 0} → String → Option Error → Exec W A → Exec W A
unless_error what none next = next
unless_error what (some e) next = raise (wrapped what "" e)

abbrev pub bearer : String → String
bearer api_key = if api_key == "" then "" else "Bearer " <> api_key

abbrev pub server_or_default : String → String
server_or_default server = if server == "" then "http://localhost:8080" else server

abbrev pub json_mode : ServiceMode → String
json_mode deployment = "deployment"
json_mode lambda = "lambda"

abbrev pub stored : ℕ → Bool
stored status = is_status status 200 || is_status status 201 || is_status status 409

abbrev pub triggered : ℕ → Bool
triggered status = is_status status 200 || is_status status 202

module _ {W : Type 0} (c : Client W) where
  abbrev pub service_json : ServiceDef W → ServiceJson
  service_json s = record {
    name = s.name;
    mode = json_mode s.mode;
    port = s.port;
    min_scale = s.min_scale;
    max_scale = s.max_scale;
    ingress_host = s.ingress_host;
    timeout_seconds = c.seconds s.timeout;
  }

  abbrev pub judge : String → (ℕ → Bool) → ℕ × String → Exec W (Unit {0})
  judge what accepts (status, text) =
      if accepts status then pure tt else raise (external (what <> ": server returned an error"))

  -- builds the request, sends it, and looks at the status
  unfoldable pub post : String → String → (ℕ → Bool) → String → String → Body → Exec W (Unit {0})
  post what building accepts url api_key body = unless_error building (c.request_error url) (
      branch (c.send (record { url = url; authorization = bearer api_key; body = body }))
        (judge what accepts) (λ e. raise (wrapped what "" e)))

  unfoldable pub register_service : String → String → ServiceDef W → Exec W (Unit {0})
  unfolding post
  register_service server api_key s =
      post "register service" "register service: build request" stored
        (server <> "/api/v1/services") api_key (service_body (service_json s))

  unfoldable pub register_workflow : String → String → Workflow W → Exec W (Unit {0})
  unfolding post
  register_workflow server api_key wf =
      let body = workflow_body (to_register_json c.seconds wf) in
      unless_error "marshal workflow graph" (c.marshal_error body) (
        post "register workflow" "build register request" stored (server <> "/api/v1/workflows")
          api_key body)

  unfoldable pub trigger_execution : String → String → String → Obj → Exec W (Unit {0})
  unfolding post
  trigger_execution server api_key name input =
      unless_error "marshal input" (c.marshal_error (input_body input)) (
        post "trigger execution" "build run request" triggered
          (server <> ("/api/v1/workflows/" <> (name <> "/run"))) api_key (input_body input))

  -- what Run and the default mode of Dispatch do
  unfoldable pub submit : Workflow W → Obj → Exec W (Unit {0})
  unfolding register_workflow trigger_execution
  submit wf input =
      let server = server_or_default (c.getenv "KFLOW_SERVER") in
      let api_key = c.getenv "KFLOW_API_KEY" in
      unless_error "invalid workflow" (validate wf)
        (do register_workflow server api_key wf; trigger_execution server api_key wf.name input)

  unfoldable pub run : Workflow W → Exec W (Unit {0})
  unfolding submit
  run wf = submit wf []

  unfoldable pub run_local : LocalRuntime W → ℕ → Workflow W → Obj → Exec W (Unit {0})
  run_local rt fuel wf input =
      unless_error "invalid workflow" (validate wf)
        (do g ← of_result (build_local_graph wf); run_local_graph rt fuel g input)

  unfoldable pub run_service : ServiceDef W → Exec W (Unit {0})
  unfolding register_service
  run_service s =
      unless_error "invalid service" (validate_service s) (
        register_service (server_or_default (c.getenv "KFLOW_SERVER")) (c.getenv "KFLOW_API_KEY") s)

  abbrev pub has_flag : String → List String → Bool
  has_flag flag [] = false
  has_flag flag (arg ∷ args) = let rest = has_flag flag args in arg == flag || rest

  -- Worker mode ends the process with an exit code; the other modes return.
  unfoldable pub dispatch : Process W → LocalRuntime W → ℕ → Workflow W → Obj → Exec W (Option ℕ)
  unfolding dispatch_worker run_local submit
  dispatch p rt fuel wf input =
      let token = c.getenv "KFLOW_STATE_TOKEN" in
      if not (token == "")
      then branch (dispatch_worker p wf token) (λ code. pure (some code)) raise
      else if has_flag "--local" p.args
      then branch (run_local rt fuel wf input) (λ _. pure none) raise
      else branch (submit wf input) (λ _. pure none) raise
