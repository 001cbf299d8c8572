-- ===== src/Store/Mongo/Connect.antt =====
-- internal/store/mongo_store.go: NewMongoStore and EnsureIndexes.
use state_graph.Prelude.{String, List, [], ◌∷◌, none}
use state_graph.Exec.{Result, Exec, pure, of_result, wrap, ◌>>=◌, ◌>>◌}
use state_graph.Store.{Time}
use state_graph.Store.Mongo.{ExecutionDoc, StateDoc, ServiceDoc, Encoding, MongoStore}
use state_graph.Store.Mongo.Driver.{Collection}

pub data Order : Type 0 where
  rising falling : Order  -- 1 and -1

pub record IndexModel : Type 0 where
  pub keys : List (String × Order)
  pub name : String

-- What the code uses of the driver, with clients of a type. An index is made in a collection, named
-- last, of a database.
pub record MongoDriver (C W : Type 0) : Type 0 where
  pub connect : String → Result C
  pub ping : C → Exec W (Unit {0})
  pub create_many : C → String → String → List IndexModel → Exec W (Unit {0})
  pub executions_of : C → String → Collection W ExecutionDoc
  pub states_of : C → String → Collection W StateDoc
  pub services_of : C → String → Collection W ServiceDoc
  pub encoding : Encoding
  pub now : W → Time

abbrev exec_indexes : List IndexModel
exec_indexes =
    record { keys = ("status", rising) ∷ []; name = "executions_status_idx" }
    ∷ record {
      keys = ("workflow", rising) ∷ ("created_at", falling) ∷ [];
      name = "executions_workflow_created_idx";
    }
    ∷ []

abbrev state_indexes : List IndexModel
state_indexes =
    record {
      keys = ("execution_id", rising) ∷ ("state_name", rising) ∷ [];
      name = "states_exec_state_idx";
    }
    ∷ record {
      keys = ("execution_id", rising) ∷ ("status", rising) ∷ [];
      name = "states_exec_status_idx";
    }
    ∷ []

abbrev svc_indexes : List IndexModel
svc_indexes = record { keys = ("status", rising) ∷ []; name = "services_status_idx" } ∷ []

module _ {C W : Type 0} (d : MongoDriver C W) where
  unfoldable pub ensure_indexes : C → String → Exec W (Unit {0})
  ensure_indexes client db = do
    wrap "store: ensure execution indexes" ""
        (d.create_many client db "kflow_executions" exec_indexes)
    wrap "store: ensure state indexes" "" (d.create_many client db "kflow_states" state_indexes)
    wrap "store: ensure service indexes" "" (d.create_many client db "kflow_services" svc_indexes)

  abbrev pub store_of : C → String → MongoStore W
  store_of client db = record {
    executions = d.executions_of client db;
    states = d.states_of client db;
    services = d.services_of client db;
    object_store = none;
    encoding = d.encoding;
    now = d.now;
  }

  -- the client, for the indexes, and the store
  unfoldable pub new_mongo_store : String → String → Exec W (C × MongoStore W)
  unfolding ensure_indexes
  new_mongo_store uri db = do
    client ← wrap "store: mongo connect" "" (of_result (d.connect uri))
    wrap "store: mongo ping" "" (d.ping client)
    ensure_indexes client db
    pure (client, store_of client db)
