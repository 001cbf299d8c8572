-- ===== src/Orchestrator/Startup.antt =====
-- cmd/orchestrator/main.go: what runServerMode connects to before it serves.
use state_graph.Prelude.{String, ℕ, ◌==◌, not, Option, none, some, if◌then◌else◌}
use state_graph.Exec.{Exec, pure, raise, of_result, branch, ◌>>=◌, ◌>>◌}
use state_graph.Config.{Config, load_config}
use state_graph.Store.Mongo.{MongoStore}
use state_graph.Store.Mongo.Objects.{S3, ObjectStore, new_object_store}
use state_graph.Store.Mongo.Connect.{MongoDriver, ensure_indexes, new_mongo_store}
use state_graph.Kubernetes.Jobs.{Cluster}
use state_graph.Kubernetes.Client as Kube
use state_graph.Telemetry.Writers.{Table, Driver, Dialer, create_tables, init_schema}
use state_graph.Telemetry.Writers as Telemetry
use state_graph.Gateway.Listeners.{Network, new_grpc_server, serve_listeners}

-- The process and the packages that it connects with.
pub record Host (M K O T W : Type 0) : Type 0 where
  pub getenv : String → String
  pub byte_length : String → ℕ
  pub mongo : MongoDriver M W
  pub load_aws : Exec W (S3 W)
  pub kube : Kube.KubeApi K W
  pub click_house : Dialer O W
  pub network : Network T W

pub record Connected (W : Type 0) : Type 0 where
  pub config : Config
  pub store : MongoStore W
  pub cluster : Option (Cluster W)
  pub telemetry : Option (Driver W)

abbrev pub with_objects : {W : Type 0} → MongoStore W → Option (ObjectStore W) → MongoStore W
with_objects s objects = record {
  executions = s.executions;
  states = s.states;
  services = s.services;
  object_store = objects;
  encoding = s.encoding;
  now = s.now;
}

module _ {M K O T W : Type 0} (h : Host M K O T W) where
  unfoldable pub connect_store : Config → Exec W (MongoStore W)
  connect_store cfg = do
    (client, ms) ← new_mongo_store h.mongo cfg.mongo_uri cfg.mongo_db
    ensure_indexes h.mongo client cfg.mongo_db
    if not (cfg.object_store_uri == "")
        then branch (new_object_store h.load_aws cfg.object_store_uri)
            (λ objects. pure (with_objects ms (some objects))) raise
        else pure ms

  -- a failure is a warning
  unfoldable pub connect_cluster : String → Exec W (Option (Cluster W))
  connect_cluster namespace =
      branch (Kube.new_client h.kube namespace) (λ c. pure (some c)) (λ _. pure none)

  -- a failure, of the schema as well, is a warning
  unfoldable pub connect_telemetry : String → Exec W (Option (Driver W))
  connect_telemetry dsn =
      if not (dsn == "")
      then branch (Telemetry.new_client h.click_house dsn)
          (λ ch. branch (init_schema ch) (λ _. pure (some ch)) (λ _. pure none)) (λ _. pure none)
      else pure none

  unfoldable pub connect : Exec W (Connected W)
  unfolding connect_store connect_cluster connect_telemetry
  connect = do
    cfg ← of_result (load_config h.byte_length h.getenv)
    ms ← connect_store cfg
    cluster ← connect_cluster cfg.namespace
    telemetry ← connect_telemetry cfg.click_house_dsn
    pure (record { config = cfg; store = ms; cluster = cluster; telemetry = telemetry })

  -- log.Fatalf exits with 1
  unfoldable pub run_server_mode : Exec W ℕ
  unfolding connect
  run_server_mode =
      branch connect
        (λ c.
          branch (new_grpc_server h.network c.config)
            (λ creds. branch (serve_listeners h.network c.config creds) (λ _. pure 0) (λ _. pure 1))
            (λ _. pure 1))
        (λ _. pure 1)
