-- ===== src/Gateway/Records.antt =====
-- internal/grpc/gateway.go, ExecutionService and ServiceManagementService.
use state_graph.Prelude.{String, ℤ, pos, zero, ◌==◌, List, map, scale, if◌then◌else◌}
use state_graph.Values.{
  Error, execution_not_found, service_not_found, duplicate_service_name, not_found,
  invalid_argument, already_exists, internal, wrapped,
}
use state_graph.Exec.{Exec, pure, raise, branch}
use state_graph.Store.{
  ExecutionFilter, ServiceMode, ServiceStatus, ServiceRecord, Store, deployment, lambda,
}
use state_graph.Gateway.{
  ProtoExecution, ProtoState, ProtoService, exec_record_to_proto, state_record_to_proto,
  svc_record_to_proto,
}

abbrev default_limit : ℤ → ℤ
default_limit (pos zero) = pos 50
default_limit l = l

-- one error is told apart and answered with `found`, any other with Internal
abbrev pub answer : Error → Error → String → Error → Error
answer execution_not_found found what execution_not_found = found
answer service_not_found found what service_not_found = found
answer duplicate_service_name found what duplicate_service_name = found
answer _ found what e = internal (wrapped what "" e)

pub record RegisterServiceRequest : Type 0 where
  pub name : String
  pub mode : String
  pub port : ℤ
  pub min_scale : ℤ
  pub max_scale : ℤ
  pub ingress_host : String
  pub timeout_seconds : ℤ

abbrev pub requested_mode : String → ServiceMode
requested_mode mode = if mode == "lambda" then lambda else deployment

-- the store sets the status and the times
abbrev pub requested_service : RegisterServiceRequest → ServiceRecord
requested_service r = record {
  name = r.name;
  mode = requested_mode r.mode;
  port = r.port;
  min_scale = r.min_scale;
  max_scale = r.max_scale;
  ingress_host = r.ingress_host;
  timeout = scale 1000000000 r.timeout_seconds;
  status = ServiceStatus.pending;
  cluster_ip = "";
  created_at = 0;
  updated_at = 0;
}

abbrev unless_not_found : {W A : Type 0} → Error → Exec W A → Exec W A → Exec W A
unless_not_found execution_not_found missing rest = missing
unless_not_found e missing rest = rest

module _ {W : Type 0} (store : Store W) where
  unfoldable pub list_executions : ExecutionFilter → Exec W (List ProtoExecution)
  list_executions f =
      branch (store.list_executions (record f { limit = default_limit f.limit }))
        (λ rs. pure (map exec_record_to_proto rs))
        (λ e. raise (internal (wrapped "list executions" "" e)))

  unfoldable pub get_execution : String → Exec W ProtoExecution
  get_execution id =
      branch (store.get_execution id) (λ r. pure (exec_record_to_proto r))
        (λ e. raise (answer execution_not_found (not_found id) "get execution" e))

  abbrev states_of : String → Exec W (List ProtoState)
  states_of id =
      branch (store.list_states id) (λ rs. pure (map state_record_to_proto rs))
        (λ e. raise (internal (wrapped "list states" "" e)))

  -- an error that is not ErrExecutionNotFound is passed over
  unfoldable pub list_execution_states : String → Exec W (List ProtoState)
  list_execution_states id =
      branch (store.get_execution id) (λ _. states_of id)
        (λ e. unless_not_found e (raise (not_found id)) (states_of id))

  unfoldable pub register_service : RegisterServiceRequest → Exec W String
  register_service r =
      if r.name == ""
      then raise (invalid_argument "service name is required")
      else branch (store.create_service (requested_service r)) (λ _. pure r.name)
          (λ e. raise (answer duplicate_service_name (already_exists r.name) "create service" e))

  unfoldable pub get_service : String → Exec W ProtoService
  get_service name =
      branch (store.get_service name) (λ r. pure (svc_record_to_proto r))
        (λ e. raise (answer service_not_found (not_found name) "get service" e))

  unfoldable pub list_services : Exec W (List ProtoService)
  list_services =
      branch store.list_services (λ rs. pure (map svc_record_to_proto rs))
        (λ e. raise (internal (wrapped "list services" "" e)))

  unfoldable pub delete_service : String → Exec W (Unit {0})
  delete_service name =
      branch (store.delete_service name) pure
        (λ e. raise (answer service_not_found (not_found name) "delete service" e))
