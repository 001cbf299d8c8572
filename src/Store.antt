-- ===== src/Store.antt =====
-- internal/store/store.go and service_store.go: the records, and the interface that the engine uses.
pub mod Memory
pub mod Filters
pub mod Mongo
use state_graph.Prelude.{String, ℕ, ℤ, Option, List}
use state_graph.Values.{Obj, Status}
use state_graph.Exec.{Exec}

-- instants, as the clock of the run counts them
abbrev pub Time : Type 0
Time = ℕ

pub record ExecutionRecord : Type 0 where
  pub id : String
  pub workflow : String
  pub status : Status
  pub input : Option Obj  -- `none` is a nil map
  pub created_at : Time
  pub updated_at : Time

pub record StateRecord : Type 0 where
  pub execution_id : String
  pub state_name : String
  pub status : Status
  pub input : Option Obj  -- `none` is a nil map
  pub output : Obj
  pub error : String
  pub attempt : ℕ
  pub resume_at : Option Time
  pub created_at : Time
  pub updated_at : Time

pub data ServiceMode : Type 0 where
  deployment lambda : ServiceMode

pub data ServiceStatus : Type 0 where
  pending running failed stopped : ServiceStatus

pub record ServiceRecord : Type 0 where
  pub name : String
  pub mode : ServiceMode
  pub port : ℤ
  pub min_scale : ℤ
  pub max_scale : ℤ
  pub ingress_host : String
  pub timeout : ℤ
  pub status : ServiceStatus
  pub cluster_ip : String
  pub created_at : Time
  pub updated_at : Time

pub record ExecutionFilter : Type 0 where
  pub workflow : String
  pub status : String
  pub limit : ℤ
  pub offset : ℤ

-- The interface `Store`, over the world in which its calls are made.
pub record Store (W : Type 0) : Type 0 where
  pub create_execution : ExecutionRecord → Exec W (Unit {0})
  pub get_execution : String → Exec W ExecutionRecord
  pub update_execution : String → Status → Exec W (Unit {0})
  pub list_executions : ExecutionFilter → Exec W (List ExecutionRecord)
  pub write_ahead_state : StateRecord → Exec W (Unit {0})
  pub mark_running : String → String → Exec W (Unit {0})
  pub complete_state : String → String → Obj → Exec W (Unit {0})
  pub fail_state : String → String → String → Exec W (Unit {0})
  pub get_state_output : String → String → Exec W Obj
  pub list_states : String → Exec W (List StateRecord)
  pub create_service : ServiceRecord → Exec W (Unit {0})
  pub get_service : String → Exec W ServiceRecord
  pub list_services : Exec W (List ServiceRecord)
  pub update_service_status : String → ServiceStatus → String → Exec W (Unit {0})
  pub delete_service : String → Exec W (Unit {0})
