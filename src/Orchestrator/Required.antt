-- ===== src/Orchestrator/Required.antt =====
-- What runServerMode needs, and what it does without.
use state_graph.Prelude.{
  String, ◌≡◌, refl, Bool, true, false, none, some, List, [], ◌∷◌, if◌then◌else◌,
}
use state_graph.Exec.{ok, Exec, branch}
use state_graph.Exec.Settles.{
  IsSettled, Any, Settles-wrap, Settles, Succeeds, Settles-raise, Settles-pure, Settles-result,
  Succeeds-pure, Settles-branch, Succeeds-branch,
}
use state_graph.Config.{Config, load_config}
use state_graph.Store.Mongo.{MongoStore}
use state_graph.Kubernetes.Jobs.{Cluster}
use state_graph.Kubernetes.Client.{KubeApi, kubeconfig, find_config}
use state_graph.Kubernetes.Client as Kube
use state_graph.Telemetry.Writers.{
  Table, Driver, Dialer, create_tables, init_schema, execution_events_table, service_metrics_table,
  logs_table,
}
use state_graph.Telemetry.Writers as Telemetry
use state_graph.Orchestrator.Startup.{
  Host, Connected, connect_store, connect_cluster, connect_telemetry, connect,
}

-- No call panics or hangs; each may fail.
pub record KubeSettles {K W : Type 0} (k : KubeApi K W) : Type 0 where
  pub in_cluster : Settles Any k.in_cluster_config
  pub builds : (path : String) → Settles Any (k.build_config_from_flags path)
  pub scopes : (cfg : K) (namespace : String) → IsSettled Any (k.cluster_of cfg namespace)
  pub answers : (c : Cluster W) → Settles Any (k.server_version c)

-- what is asked of a connection that was opened
pub record ConnSettles {W : Type 0} (conn : Driver W) : Type 0 where
  pub closes : Settles Any conn.close
  pub creates : (t : Table) → Settles Any (conn.create_if_not_exists t)

pub record DialerSettles {O W : Type 0} (d : Dialer O W) : Type 0 where
  pub parses : (dsn : String) → IsSettled Any (d.parse_dsn dsn)
  pub opens : (opts : O) → Settles ConnSettles (d.open_connection opts)
  pub pings : (conn : Driver W) → Settles Any (d.ping conn)

module _ {K W : Type 0} (k : KubeApi K W) (calls : KubeSettles k) where
  find_config-Settles : Settles Any (find_config k)
  unfolding find_config
  find_config-Settles =
      Settles-branch _ _ _ calls.in_cluster Settles-pure
        (λ e. Settles-wrap _ _ _ (calls.builds (kubeconfig k)))

  new_client-Settles : (namespace : String) → Settles Any (Kube.new_client k namespace)
  unfolding Kube.new_client
  new_client-Settles namespace =
      Settles-branch _ _ _ find_config-Settles
        (λ cfg _.
          Settles-branch _ _ _ (Settles-wrap _ _ _ (Settles-result _ (calls.scopes cfg namespace)))
            (λ cs _.
              Settles-branch _ _ _ (Settles-wrap _ _ _ (calls.answers cs))
                (λ _ _. Settles-pure cs tt) Settles-raise)
            Settles-raise)
        Settles-raise

module _ {O W : Type 0} (d : Dialer O W) (calls : DialerSettles d) where
  dial-Settles : (dsn : String) → Settles ConnSettles (Telemetry.new_client d dsn)
  unfolding Telemetry.new_client
  dial-Settles dsn =
      Settles-branch _ _ _ (Settles-result _ (calls.parses dsn))
        (λ opts _.
          Settles-branch _ _ _ (calls.opens opts)
            (λ conn h.
              Settles-branch _ _ _ (calls.pings conn) (λ _ _. Settles-pure conn h)
                (λ e.
                  Settles-branch _ _ _ h.closes (λ _ _. Settles-raise _) (λ _. Settles-raise _)))
            (λ e. Settles-raise _))
        (λ e. Settles-raise _)

module _ {W : Type 0} (conn : Driver W) (h : ConnSettles conn) where
  create_tables-Settles : (ts : List Table) → Settles Any (create_tables conn ts)
  unfolding create_tables
  create_tables-Settles [] = Settles-pure tt tt
  create_tables-Settles (t ∷ ts) =
      Settles-branch _ _ _ (h.creates t) (λ _ _. create_tables-Settles ts) (λ e. Settles-raise _)

  init_schema-Settles : Settles Any (init_schema conn)
  unfolding init_schema
  init_schema-Settles =
      create_tables-Settles (execution_events_table ∷ service_metrics_table ∷ logs_table ∷ [])

Succeeds-if :
    {W A : Type 0} (b : Bool) {m n : Exec W A}
    → Succeeds m
    → Succeeds n
    → Succeeds (if b then m else n)
Succeeds-if true hm hn = hm
Succeeds-if false hm hn = hn

module _ {M K O T W : Type 0} (h : Host M K O T W) (kube : KubeSettles h.kube)
    (click_house : DialerSettles h.click_house) where
  connect_cluster-Succeeds : (namespace : String) → Succeeds (connect_cluster h namespace)
  unfolding connect_cluster
  connect_cluster-Succeeds namespace =
      Succeeds-branch _ _ _ (new_client-Settles h.kube kube namespace)
        (λ c _. Succeeds-pure (some c)) (λ _. Succeeds-pure none)

  connect_telemetry-Succeeds : (dsn : String) → Succeeds (connect_telemetry h dsn)
  unfolding connect_telemetry
  connect_telemetry-Succeeds dsn =
      Succeeds-if _
        (Succeeds-branch _ _ _ (dial-Settles h.click_house click_house dsn)
          (λ ch opened.
            Succeeds-branch _ _ _ (init_schema-Settles ch opened) (λ _ _. Succeeds-pure (some ch))
              (λ _. Succeeds-pure none))
          (λ _. Succeeds-pure none))
        (Succeeds-pure none)

  -- The control plane connects, with its configuration and its store, if the configuration loads and
  -- the stores can be reached, whether there is a cluster or not, and ClickHouse or not, if none of
  -- the calls to these two panics or hangs.
  pub connect-tolerates :
      (cfg : Config) (st : MongoStore W) (w w1 : W)
      → load_config h.byte_length h.getenv ≡ ok cfg
      → connect_store h cfg w ≡ (ok st, w1)
      → (c : Connected W) × (w' : W) × (connect h w ≡ (ok c, w'))
        × (c.config ≡ cfg)
        × (c.store ≡ st)
  unfolding connect branch
  connect-tolerates cfg st w w1 loaded stored =
      let (cluster, w2, clustered) = (connect_cluster-Succeeds cfg.namespace).succeeds w1 in
      let (telemetry, w3, told) = (connect_telemetry-Succeeds cfg.click_house_dsn).succeeds w2 in
      (
        record { config = cfg; store = st; cluster = cluster; telemetry = telemetry },
        w3,
        rw (loaded, stored, clustered, told) refl,
        refl,
        refl,
      )
