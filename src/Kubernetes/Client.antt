-- ===== src/Kubernetes/Client.antt =====
-- internal/k8s/client.go: NewClient.
use Prim.Native.String.{◌++◌ as ◌<>◌}
use state_graph.Prelude.{String, ◌==◌, if◌then◌else◌}
use state_graph.Exec.{Result, Exec, pure, of_result, branch, wrap, ◌>>=◌, ◌>>◌}
use state_graph.Kubernetes.Jobs.{Cluster}

-- What NewClient uses of client-go and of the process, with configurations of a type. `cluster_of`
-- is the clientset of a configuration, scoped to a namespace.
pub record KubeApi (C W : Type 0) : Type 0 where
  pub in_cluster_config : Exec W C
  pub kubeconfig_variable : String
  pub home_dir : String
  pub build_config_from_flags : String → Exec W C
  pub host : C → String
  pub cluster_of : C → String → Result (Cluster W)
  pub server_version : Cluster W → Exec W (Unit {0})

module _ {C W : Type 0} (k : KubeApi C W) where
  abbrev pub kubeconfig : String
  kubeconfig =
      if k.kubeconfig_variable == "" then k.home_dir <> "/.kube/config" else k.kubeconfig_variable

  unfoldable pub find_config : Exec W C
  find_config =
      branch k.in_cluster_config pure
        (λ _. wrap "k8s: cannot build kubeconfig" "" (k.build_config_from_flags kubeconfig))

  unfoldable pub new_client : String → Exec W (Cluster W)
  unfolding find_config
  new_client namespace = do
    cfg ← find_config
    cs ← wrap "k8s: cannot create clientset" "" (of_result (k.cluster_of cfg namespace))
    wrap "k8s: cannot reach API server at" (k.host cfg) (k.server_version cs)
    pure cs
