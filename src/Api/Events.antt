-- ===== src/Api/Events.antt =====
-- internal/api/ws_handler.go: the events that the hub hands on.
use state_graph.Prelude.{String}
use state_graph.Values.{Status}
use state_graph.Store.{Time}
use state_graph.Telemetry.{LogRow}

pub record StateTransitionPayload : Type 0 where
  pub execution_id : String
  pub state_name : String
  pub from_status : Status
  pub to_status : Status
  pub error : String

-- LogEntryPayload has the fields of a row.
pub data EventPayload : Type 0 where
  state_transition : StateTransitionPayload → EventPayload
  service_update : String → String → EventPayload
  log_entry : LogRow → EventPayload
  logs_end : EventPayload

-- An event with its type, which the payload tells.
pub record WsEvent : Type 0 where
  pub payload : EventPayload
  pub timestamp : Time
