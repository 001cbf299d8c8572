-- ===== src/Values.antt =====
-- pkg/kflow/input.go, internal/store/store.go (`Status`) and the errors that the packages return.
use state_graph.Prelude.{String, ℕ}
use state_graph.Dict.{Dict}

-- `any`: the code asks of a value only whether it is a string, so any other value is a number that
-- identifies it.
pub data Value : Type 0 where
  str : String → Value
  other : ℕ → Value

-- `Input` and `Output`. A nil map reads as an empty one; where the code tells them apart, the model
-- has an `Option Obj`.
abbrev pub Obj : Type 0
Obj = Dict Value

pub data Status : Type 0 where
  pending running completed failed : Status

-- One constructor for each error value or format of the code, with what it prints.
pub data Error : Type 0 where
  -- pkg/kflow/validate.go
  duplicate_name missing_handler ambiguous_handler unknown_state no_entry_point scale_min : Error
  -- internal/engine/graph.go
  unknown_task no_next : String → Error
  choice_unknown next_not_found : String → String → Error
  -- internal/store
  execution_not_found state_not_found state_not_completed state_already_terminal : Error
  service_not_found duplicate_service_name : Error
  execution_exists : String → Error
  output_too_large object_not_found duplicate_key no_documents no_such_key : Error
  -- pkg/kflow/graph_json.go, internal/local/runner.go
  unknown_step unknown_current no_inline_handler choice_unset handler_unknown : String → Error
  not_in_flow : String → String → Error
  state_failed : String → Error → Error
  -- internal/runner; the gRPC codes are constructors
  secret_too_short invalid_token missing_token rejected_token : Error
  token_not_marshalled internal : Error → Error
  not_found invalid_argument already_exists permission_denied : String → Error
  -- internal/engine/k8s_executor.go, internal/controller/service_dispatcher.go
  empty_job_name : Error
  watch_closed : String → Error
  job_failed : String → String → Error
  service_unknown service_not_running : String → Error
  wrapped : String → String → Error → Error
  -- what a handler, a dispatcher or a context returned, by its text
  external : String → Error
