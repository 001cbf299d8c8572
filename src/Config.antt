-- ===== src/Config.antt =====
-- internal/config/config.go.
pub mod Bounds
use state_graph.Prelude.{String, ℕ, Bool, ltb, ◌&&◌, ◌==◌, if◌then◌else◌}
use state_graph.Values.{external}
use state_graph.Exec.{Result, ok, err}

pub record Config : Type 0 where
  pub mongo_uri : String
  pub mongo_db : String
  pub namespace : String
  pub grpc_port : String
  pub runner_grpc_port : String
  pub grpc_tls_cert : String
  pub grpc_tls_key : String
  pub runner_grpc_endpoint : String
  pub runner_token_secret : String
  pub service_grpc_port : String
  pub api_key : String
  pub click_house_dsn : String
  pub object_store_uri : String
  pub image : String

abbrev pub or_default : String → String → String
or_default value def = if value == "" then def else value

abbrev pub after : Result (Unit {0}) → Config → Result Config
after (ok _) c = ok c
after (err e) c = err e
after Result.panics c = Result.panics
after Result.running c = Result.running

abbrev pub config_of : (String → String) → Config
config_of getenv = record {
  mongo_uri = getenv "KFLOW_MONGO_URI";
  mongo_db = or_default (getenv "KFLOW_MONGO_DB") "kflow";
  namespace = or_default (getenv "KFLOW_NAMESPACE") "kflow";
  grpc_port = or_default (getenv "KFLOW_GRPC_PORT") "8080";
  runner_grpc_port = or_default (getenv "KFLOW_RUNNER_GRPC_PORT") "9090";
  grpc_tls_cert = getenv "KFLOW_GRPC_TLS_CERT";
  grpc_tls_key = getenv "KFLOW_GRPC_TLS_KEY";
  runner_grpc_endpoint =
      or_default (getenv "KFLOW_RUNNER_GRPC_ENDPOINT") "kflow-cp.kflow.svc.cluster.local:9090";
  runner_token_secret = getenv "KFLOW_RUNNER_TOKEN_SECRET";
  service_grpc_port = or_default (getenv "KFLOW_SERVICE_GRPC_PORT") "9091";
  api_key = getenv "KFLOW_API_KEY";
  click_house_dsn = getenv "KFLOW_CLICKHOUSE_DSN";
  object_store_uri = getenv "KFLOW_OBJECT_STORE_URI";
  image = getenv "KFLOW_IMAGE";
}

-- `getenv` is os.Getenv, `byte_length` is len. The warnings in the log are left out.
module _ (byte_length : String → ℕ) where
  unfoldable pub validate_mongo_uri : String → Result (Unit {0})
  validate_mongo_uri uri =
      if ltb (byte_length uri) 10
      then err (external "config: KFLOW_MONGO_URI appears invalid")
      else ok tt

  unfoldable pub load_config : (String → String) → Result Config
  unfolding validate_mongo_uri
  load_config getenv =
      if getenv "KFLOW_MONGO_URI" == ""
      then err (external "config: KFLOW_MONGO_URI is required but not set")
      else if ltb 0 (byte_length (getenv "KFLOW_RUNNER_TOKEN_SECRET"))
          && ltb (byte_length (getenv "KFLOW_RUNNER_TOKEN_SECRET")) 32
      then err (external "config: KFLOW_RUNNER_TOKEN_SECRET must be at least 32 bytes")
      else after (validate_mongo_uri (getenv "KFLOW_MONGO_URI")) (config_of getenv)
