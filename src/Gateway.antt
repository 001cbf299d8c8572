-- ===== src/Gateway.antt =====
-- internal/grpc/gateway.go: what the handlers share, the messages and the conversions to them.
pub mod Listeners
pub mod Uuid
pub mod Workflows
pub mod Records
pub mod Queries
pub mod Auth
pub mod Mux
pub mod Outcomes
pub mod Keys
use Prim.Native.Nat.{◌%◌, ◌^◌}
use state_graph.Prelude.{String, ℕ, ℤ, pos, negsuc, ◌+◌, ◌-◌, ltb, Bool, if◌then◌else◌}
use state_graph.Dict.{Dict}
use state_graph.Values.{Status, pending, running, completed, failed}
use state_graph.Exec.{Exec}
use state_graph.Store.{
  Time, ExecutionRecord, StateRecord, ServiceMode, ServiceStatus, ServiceRecord, Store, deployment,
  lambda,
}

-- int32(n), for a number of any size
abbrev pub wrap_int32 : ℕ → ℤ
wrap_int32 m = if ltb m (2 ^ 31) then pos m else negsuc (2 ^ 32 - 1 - m)

unfoldable pub int32 : ℤ → ℤ
int32 (pos n) = wrap_int32 (n % 2 ^ 32)
int32 (negsuc n) = wrap_int32 (2 ^ 32 - 1 - n % 2 ^ 32)

pub data ProtoStatus : Type 0 where
  status_unspecified status_pending status_running status_completed status_failed : ProtoStatus

pub data ProtoServiceStatus : Type 0 where
  service_status_unspecified service_status_pending service_status_running : ProtoServiceStatus
  service_status_failed service_status_stopped : ProtoServiceStatus

pub record ProtoExecution : Type 0 where
  pub id : String
  pub workflow : String
  pub status : ProtoStatus
  pub created_at : Time
  pub updated_at : Time

pub record ProtoState : Type 0 where
  pub execution_id : String
  pub state_name : String
  pub status : ProtoStatus
  pub error : String
  pub attempt : ℤ
  pub created_at : Time
  pub updated_at : Time

pub record ProtoService : Type 0 where
  pub name : String
  pub mode : String
  pub port : ℤ
  pub min_scale : ℤ
  pub max_scale : ℤ
  pub ingress_host : String
  pub cluster_ip : String
  pub status : ProtoServiceStatus
  pub created_at : Time
  pub updated_at : Time

abbrev pub proto_status : Status → ProtoStatus
proto_status pending = status_pending
proto_status running = status_running
proto_status completed = status_completed
proto_status failed = status_failed

abbrev pub proto_service_status : ServiceStatus → ProtoServiceStatus
proto_service_status ServiceStatus.pending = service_status_pending
proto_service_status ServiceStatus.running = service_status_running
proto_service_status ServiceStatus.failed = service_status_failed
proto_service_status ServiceStatus.stopped = service_status_stopped

abbrev pub mode_text : ServiceMode → String
mode_text lambda = "lambda"
mode_text deployment = "deployment"

abbrev pub exec_record_to_proto : ExecutionRecord → ProtoExecution
exec_record_to_proto r = record {
  id = r.id;
  workflow = r.workflow;
  status = proto_status r.status;
  created_at = r.created_at;
  updated_at = r.updated_at;
}

abbrev pub state_record_to_proto : StateRecord → ProtoState
state_record_to_proto r = record {
  execution_id = r.execution_id;
  state_name = r.state_name;
  status = proto_status r.status;
  error = r.error;
  attempt = int32 (pos r.attempt);
  created_at = r.created_at;
  updated_at = r.updated_at;
}

abbrev pub svc_record_to_proto : ServiceRecord → ProtoService
svc_record_to_proto r = record {
  name = r.name;
  mode = mode_text r.mode;
  port = int32 r.port;
  min_scale = int32 r.min_scale;
  max_scale = int32 r.max_scale;
  ingress_host = r.ingress_host;
  cluster_ip = r.cluster_ip;
  status = proto_service_status r.status;
  created_at = r.created_at;
  updated_at = r.updated_at;
}

-- The gateway's map of workflows, beside the world of the store.
pub record Registry (G W : Type 0) : Type 0 where
  pub workflows : Dict G
  pub world : W

module _ {G W A : Type 0} where
  abbrev pub below : Exec W A → Exec (Registry G W) A
  below m s = let (r, w) = m s.world in (r, record s { world = w })
