-- ===== src/Store/Mongo.antt =====
-- internal/store/mongo_store.go, the executions and states (the services: Store/Mongo/Services).
pub mod Connect
pub mod Driver
pub mod Objects
pub mod States
pub mod Executions
pub mod Tracks
pub mod Writes
pub mod Updates
pub mod Calls
pub mod Ahead
pub mod Large
pub mod Interrupted
pub mod Refines
use Prim.Native.String.{◌++◌ as ◌<>◌}
use state_graph.Prelude.{
  String, ℕ, zero, suc, ℤ, pos, pos_part, Bool, true, false, ◌&&◌, ◌||◌, ◌==◌, Option, none, some,
  List, [], ◌∷◌, map, ltb, length, if◌then◌else◌,
}
use state_graph.Dict.{lookup}
use state_graph.Values.{
  Value, str, Obj, Error, Status, pending, running, completed, failed, execution_not_found,
  execution_exists, state_not_found, state_not_completed, state_already_terminal, output_too_large,
  duplicate_key, no_documents, wrapped,
}
use state_graph.Exec.{
  Result, ok, err, Exec, pure, raise, panic, of_result, inspect, branch, wrap, ◌>>=◌, ◌>>◌,
}
use state_graph.Store.{
  Time, ExecutionRecord, StateRecord, ServiceMode, ServiceStatus, ServiceRecord, ExecutionFilter,
}
use state_graph.Store.Memory.{is_completed, status_text}
use state_graph.Store.Mongo.Driver.{Collection, Sort, unsorted, ascending, descending}
use state_graph.Store.Mongo.Objects.{
  ObjectStore, put_object, get_object, without_scheme, after_slash,
}

-- The documents; `none` is a nil bson.M, which is stored as null.
pub record ExecutionDoc : Type 0 where
  pub id : String
  pub workflow : String
  pub status : Status
  pub input : Option Obj
  pub created_at : Time
  pub updated_at : Time

pub record StateDoc : Type 0 where
  pub id : String
  pub execution_id : String
  pub state_name : String
  pub status : Status
  pub input : Option Obj
  pub output : Option Obj
  pub error : String
  pub attempt : ℕ
  pub created_at : Time
  pub updated_at : Time

pub record ServiceDoc : Type 0 where
  pub name : String
  pub mode : ServiceMode
  pub port : ℤ
  pub min_scale : ℤ
  pub max_scale : ℤ
  pub ingress_host : String
  pub timeout_ns : ℤ
  pub status : ServiceStatus
  pub cluster_ip : String
  pub created_at : Time
  pub updated_at : Time

-- What the code uses of `encoding/json`, with `len` in bytes, and of `fmt` for a number; and which maps
-- the encoding of the driver, BSON, gives back as they were. It does not for each: a number comes back
-- with another type, and a map or an array in a map as one of the driver's own.
pub record Encoding : Type 0 where
  pub marshal : Obj → Result String
  pub unmarshal : String → Result Obj
  pub byte_length : String → ℕ
  pub decimal : ℕ → String
  pub survives : Obj → Bool

pub record MongoStore (W : Type 0) : Type 0 where
  pub executions : Collection W ExecutionDoc
  pub states : Collection W StateDoc
  pub services : Collection W ServiceDoc
  pub object_store : Option (ObjectStore W)
  pub encoding : Encoding
  pub now : W → Time

-- copies of a map, entry by entry
abbrev pub input_to_m : Option Obj → Obj
input_to_m none = []
input_to_m (some m) = m

abbrev pub m_to_input : Option Obj → Obj
m_to_input none = []
m_to_input (some m) = m

abbrev pub state_doc_id : (ℕ → String) → String → String → ℕ → String
state_doc_id decimal exec_id state_name attempt =
    exec_id <> ":" <> (state_name <> ":" <> decimal attempt)

abbrev pub or_else : String → Option String → String
or_else s none = s
or_else s (some t) = t

-- a URI without the scheme and the bucket
unfoldable pub extract_s3_key : String → String
unfolding without_scheme
extract_s3_key ref = let rest = or_else ref (without_scheme ref) in or_else rest (after_slash rest)

abbrev pub execution_of_doc : ExecutionDoc → ExecutionRecord
execution_of_doc d = record {
  id = d.id;
  workflow = d.workflow;
  status = d.status;
  input = some (m_to_input d.input);
  created_at = d.created_at;
  updated_at = d.updated_at;
}

abbrev pub state_of_doc : StateDoc → StateRecord
state_of_doc d = record {
  execution_id = d.execution_id;
  state_name = d.state_name;
  status = d.status;
  input = some (m_to_input d.input);
  output = m_to_input d.output;
  error = d.error;
  attempt = d.attempt;
  resume_at = none;
  created_at = d.created_at;
  updated_at = d.updated_at;
}

-- the filter on an execution and one of its states
abbrev pub of_state : String → String → StateDoc → Bool
of_state exec_id state_name d = d.execution_id == exec_id && d.state_name == state_name

abbrev pub latest : Sort StateDoc
latest = descending (λ d. d.attempt)

-- the answers of the driver that the code tells apart
abbrev pub no_docs : {A : Type 0} → A → A → Error → A
no_docs missing other no_documents = missing
no_docs missing other e = other

abbrev pub duplicate : Error → Error → Error → Error
duplicate taken other duplicate_key = taken
duplicate taken other e = other

-- result.MatchedCount == 0
abbrev pub matched : {W : Type 0} → Error → ℕ → Exec W (Unit {0})
matched missing zero = raise missing
matched missing (suc n) = pure tt
