-- ===== src/Api.antt =====
-- internal/api/server.go: the HTTP server, its answers and its handlers on workflows and executions.
pub mod Graphs
pub mod Services
pub mod Logs
pub mod Sessions
pub mod Events
pub mod Streams
pub mod Streamed
pub mod Hubs
pub mod Channels
pub mod Tokens
pub mod Outcomes
use state_graph.Prelude.{
  String, ℕ, ℤ, pos, negsuc, Bool, true, false, not, ◌||◌, ◌==◌, Option, none, some, List, [], ◌∷◌,
  if◌then◌else◌,
}
use state_graph.Dict.{Dict, lookup}
use state_graph.Values.{Obj, Error, execution_not_found}
use state_graph.Exec.{if_found, Exec, pure, branch, inspect, act, ◌>>=◌, ◌>>◌}
use state_graph.Store.{ExecutionRecord, StateRecord, ServiceRecord, ExecutionFilter, Store}
use state_graph.Telemetry.{EventRow, MetricRow, LogRow}
use state_graph.Gateway.{Registry, below}
use state_graph.Gateway.Uuid.{gen_uuid}
use state_graph.Gateway.Workflows.{new_record}

pub record RetryPolicy : Type 0 where
  pub max_attempts : ℤ
  pub backoff_seconds : ℤ
  pub max_backoff_seconds : ℤ

pub record StateNode : Type 0 where
  pub name : String
  pub type : String
  pub handler_ref : String
  pub service_target : String
  pub catch : String
  pub retry : Option RetryPolicy

pub record FlowEntry : Type 0 where
  pub name : String
  pub next : String
  pub catch : String
  pub is_end : Bool
  pub retry : Option RetryPolicy

pub record WorkflowGraph : Type 0 where
  pub name : String
  pub states : List StateNode
  pub flow : List FlowEntry

-- What a handler writes, by the status: `problem` is writeError, `success` writeJSON.
pub data Payload : Type 0 where
  empty : Payload
  text : String → Payload
  auth_enabled : Bool → Payload
  token registered_name new_execution_id : String → Payload
  workflows : List String → Payload
  graph : WorkflowGraph → Payload
  executions : List ExecutionRecord → Payload
  execution : ExecutionRecord → Payload
  states : List StateRecord → Payload
  services : List ServiceRecord → Payload
  service : ServiceRecord → Payload
  events : List EventRow → Payload
  metrics : List MetricRow → Payload
  logs : List LogRow → ℕ → Payload

pub data Response : Type 0 where
  success : ℕ → Payload → Response
  problem : ℕ → String → String → Response

abbrev pub internal_error : String → Response
internal_error msg = problem 500 msg "internal"

abbrev pub if_natural : ℤ → Option ℤ → ℤ
if_natural def none = def
if_natural def (some (negsuc _)) = def
if_natural def (some (pos n)) = pos n

-- `atoi` is strconv.Atoi.
unfoldable pub parse_int_param : (String → Option ℤ) → String → ℤ → ℤ
parse_int_param atoi s def = if s == "" then def else if_natural def (atoi s)

abbrev pub is_member : String → List String → Bool
is_member name [] = false
is_member name (x ∷ xs) = x == name || is_member name xs

abbrev is_some {ℓ} : {A : Type ℓ} → Option A → Bool
is_some none = false
is_some (some _) = true

-- ErrExecutionNotFound is told apart
abbrev pub missing_execution : {A : Type 0} → Error → A → A → A
missing_execution execution_not_found missing other = missing
missing_execution _ missing other = other

module _ {W : Type 0} where
  abbrev healthz : Exec W Response
  healthz = pure (success 200 (text "ok"))

  unfoldable pub handle_readyz : Bool → Exec W Response
  handle_readyz ready =
      if not ready
      then pure (problem 503 "not ready" "not_ready")
      else pure (success 200 (text "ok"))

  unfoldable pub handle_list_workflows : List String → Exec W Response
  handle_list_workflows names = pure (success 200 (workflows names))

module _ {W : Type 0} where
  abbrev start :
      Option (String → String → Option Obj → W → W)
      → String
      → String
      → Option Obj
      → Exec W (Unit {0})
  start none exec_id name input = pure tt
  start (some go) exec_id name input = act (go exec_id name input)

-- A request's body, by what json.Decoder makes of it; `none` is an error of its.
module _ {W : Type 0} (store : Store W) where
  abbrev create_and_start :
      Option (String → String → Option Obj → W → W) → String → Option Obj → String → Exec W Response
  create_and_start trigger name input exec_id =
      branch (store.create_execution (new_record exec_id name input))
        (λ _. do start trigger exec_id name input; pure (success 202 (new_execution_id exec_id)))
        (λ _. pure (internal_error "failed to create execution"))

  unfoldable pub handle_run_workflow :
      List String
      → Exec W (ℕ → ℕ)
      → Option (String → String → Option Obj → W → W)
      → String
      → Option (Option Obj)
      → Exec (Registry WorkflowGraph W) Response
  unfolding gen_uuid
  handle_run_workflow names rand_read trigger name body = inspect λ s.
      if not (is_member name names || is_some (lookup name s.workflows))
      then pure (problem 404 "workflow not found" "not_found")
      else if_found body (pure (problem 400 "invalid request body" "bad_request")) λ input. below (
          branch (gen_uuid rand_read) (create_and_start trigger name input)
            (λ _. pure (internal_error "failed to generate execution ID")))

  -- `atoi` and the query's four parameters
  unfoldable pub handle_list_executions :
      (String → Option ℤ) → String → String → String → String → Exec W Response
  unfolding parse_int_param
  handle_list_executions atoi workflow status limit offset =
      branch
        (store.list_executions (record {
          workflow = workflow;
          status = status;
          limit = parse_int_param atoi limit (pos 50);
          offset = parse_int_param atoi offset (pos 0);
        }))
        (λ rs. pure (success 200 (executions rs)))
        (λ _. pure (internal_error "failed to list executions"))

  unfoldable pub handle_get_execution : String → Exec W Response
  handle_get_execution id =
      branch (store.get_execution id) (λ r. pure (success 200 (execution r)))
        (λ e. pure (
          missing_execution e (problem 404 "execution not found" "not_found")
            (internal_error "failed to get execution")))

  abbrev write_states : String → Exec W Response
  write_states id =
      branch (store.list_states id) (λ rs. pure (success 200 (states rs)))
        (λ _. pure (internal_error "failed to list states"))

  unfoldable pub handle_list_states : String → Exec W Response
  handle_list_states id =
      branch (store.get_execution id) (λ _. write_states id)
        (λ e.
          missing_execution e (pure (problem 404 "execution not found" "not_found"))
            (write_states id))
