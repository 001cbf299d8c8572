-- ===== src/Scenarios/Startup.antt =====
-- A control plane with its stores, and neither a cluster nor ClickHouse.
use state_graph.Prelude.{String, refl, ◌≡◌, ◌==◌, some, if◌then◌else◌}
use state_graph.Values.{external}
use state_graph.Exec.{Exec, ok, err, branch}
use state_graph.Config.{Config, config_of, load_config}
use state_graph.Store.Mongo.{MongoStore}
use state_graph.Store.Mongo.Objects.{new_object_store}
use state_graph.Store.Mongo.Connect.{MongoDriver, new_mongo_store, store_of}
use state_graph.Kubernetes.Client.{KubeApi}
use state_graph.Telemetry.Writers.{Dialer}
use state_graph.Orchestrator.Startup.{Host, Connected, with_objects, connect_store, connect}
use state_graph.Orchestrator.Required.{KubeSettles, DialerSettles, connect-tolerates}
use state_graph.Scenarios.Mongo.{Server, encoding, unused, client, bucket, empty}

abbrev refuses : {A : Type 0} → Exec Server A
refuses w = (err (external "connection refused"), w)

abbrev variables : String → String
variables name =
    if name == "KFLOW_MONGO_URI"
    then "mongodb://db"
    else if name == "KFLOW_OBJECT_STORE_URI"
    then "s3://outputs/"
    else if name == "KFLOW_CLICKHOUSE_DSN"
    then "clickhouse://ch"
    else ""

abbrev database : MongoDriver (Unit {0}) Server
database = record {
  connect = λ uri. ok tt;
  ping = λ c w. (ok tt, w);
  create_many = λ c db coll indexes w. (ok tt, w);
  executions_of = λ c db. unused;
  states_of = λ c db. unused;
  services_of = λ c db. unused;
  encoding = encoding 2;
  now = λ w. 7;
}

abbrev no_cluster : KubeApi (Unit {0}) Server
no_cluster = record {
  in_cluster_config = refuses;
  kubeconfig_variable = "";
  home_dir = "/root";
  build_config_from_flags = λ path w. (ok tt, w);
  host = λ c. "localhost";
  cluster_of = λ c namespace. err (external "no clientset");
  server_version = λ c. refuses;
}

no_cluster-Settles : KubeSettles no_cluster
no_cluster-Settles = record {
  in_cluster = record { settled = λ w. tt };
  builds = λ path. record { settled = λ w. tt };
  scopes = λ cfg namespace. tt;
  answers = λ c. record { settled = λ w. tt };
}

abbrev no_click_house : Dialer (Unit {0}) Server
no_click_house = record {
  parse_dsn = λ dsn. ok tt;
  open_connection = λ opts. refuses;
  ping = λ conn. refuses;
}

abbrev host : Host (Unit {0}) (Unit {0}) (Unit {0}) (Unit {0}) Server
host = record {
  getenv = variables;
  byte_length = λ s. if s == "" then 0 else 12;
  mongo = database;
  load_aws = λ w. (ok client, w);
  kube = no_cluster;
  click_house = no_click_house;
  network = record {
    load_pair = λ cert key. refuses;
    listen = λ addr. refuses;
    serve_both = λ addr creds. refuses;
    graceful_stop = λ w. w;
    shutdown = refuses;
  };
}

abbrev cfg : Config
cfg = config_of variables

abbrev ms : MongoStore Server
ms = with_objects (store_of database tt "kflow") (some bucket)

loaded : load_config host.byte_length host.getenv ≡ ok cfg
unfolding load_config
loaded = refl

stored : connect_store host cfg empty ≡ (ok ms, empty)
unfolding connect_store new_mongo_store new_object_store branch
stored = refl

no_click_house-Settles : DialerSettles no_click_house
no_click_house-Settles = record {
  parses = λ dsn. tt;
  opens = λ opts. record { settled = λ w. tt };
  pings = λ conn. record { settled = λ w. tt };
}

connect-tolerates_example :
    (c : Connected Server) × (w' : Server) × (connect host empty ≡ (ok c, w'))
    × (c.config ≡ cfg)
    × (c.store ≡ ms)
connect-tolerates_example =
    connect-tolerates host no_cluster-Settles no_click_house-Settles cfg ms empty empty loaded
      stored
