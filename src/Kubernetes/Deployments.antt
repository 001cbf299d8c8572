-- ===== src/Kubernetes/Deployments.antt =====
-- internal/k8s/deployment.go, ingress.go and errors.go: the calls on deployments,
-- services and ingresses, over the requests to the cluster's API.
use Prim.Native.String.{◌++◌ as ◌<>◌}
use state_graph.Prelude.{
  String, ℤ, pos, negsuc, leb, ltb, Bool, true, false, ◌||◌, ◌==◌, List, [], ◌∷◌, if◌then◌else◌,
}
use state_graph.Values.{Error, wrapped, external, watch_closed}
use state_graph.Exec.{Result, ok, err, Exec, pure, raise, of_result, branch, ◌>>=◌, ◌>>◌}
use state_graph.Kubernetes.Manifests.{
  DeploymentSpec, Deployment, ClusterService, IngressSpec, Ingress, or_namespace, deployment_of,
  service_of, ingress_of,
}

-- what `clusterError` finds in an error
pub data Fault : Type 0 where
  not_reachable connection unauthorized forbidden unrecognised : Fault

abbrev pub hint : Fault → String
hint not_reachable = "cluster not reachable — is the API server running?"
hint connection = "cluster connection error"
hint unauthorized = "authentication failed — check kubeconfig credentials"
hint forbidden = "permission denied — check RBAC rules for the service account"
hint unrecognised = ""

-- What a watch of a deployment delivers: ctx.Done(), the end of the channel, the available replicas of
-- a deployment that was added or modified, or another event.
pub data RolloutSignal : Type 0 where
  context_done : Error → RolloutSignal
  channel_closed : RolloutSignal
  available : ℤ → RolloutSignal
  other_event : RolloutSignal

-- The requests, each in a namespace; `in_background` deletes the dependents too. A watch gives the
-- signals that it delivers, in order.
pub record Workloads (W : Type 0) : Type 0 where
  pub namespace : String
  pub fault : Error → Fault
  pub create_deployment_request : String → Deployment → Exec W (Unit {0})
  pub get_deployment_request : String → String → Exec W Deployment
  pub update_deployment_request : String → Deployment → Exec W (Unit {0})
  pub delete_deployment_request : (in_background : Bool) → String → String → Exec W (Unit {0})
  pub watch_deployment_request : String → String → Exec W (List RolloutSignal)
  pub create_service_request : String → ClusterService → Exec W (Unit {0})
  pub cluster_ip_request : String → String → Exec W String
  pub delete_service_request : (in_background : Bool) → String → String → Exec W (Unit {0})
  pub create_ingress_request : String → Ingress → Exec W (Unit {0})
  pub delete_ingress_request : String → String → Exec W (Unit {0})

abbrev pub is_below_one : ℤ → Bool
is_below_one (pos n) = ltb n 1
is_below_one (negsuc n) = true

abbrev pub at_least : ℤ → ℤ → Bool
at_least (pos a) (pos b) = leb b a
at_least (pos a) (negsuc b) = true
at_least (negsuc a) (pos b) = false
at_least (negsuc a) (negsuc b) = leb a b

-- the loop of WatchDeploymentRollout; a watch that delivers no more blocks it
unfoldable pub follow_rollout : String → ℤ → List RolloutSignal → Result (Unit {0})
follow_rollout name min_ready [] = Result.running
follow_rollout name min_ready (context_done e ∷ signals) = err e
follow_rollout name min_ready (channel_closed ∷ signals) = err (watch_closed name)
follow_rollout name min_ready (available n ∷ signals) =
    let rest = follow_rollout name min_ready signals in if at_least n min_ready then ok tt else rest
follow_rollout name min_ready (other_event ∷ signals) = follow_rollout name min_ready signals

module _ {W : Type 0} (c : Workloads W) where
  abbrev pub cluster_error : String → Error → Error
  cluster_error op e = wrapped (hint (c.fault e)) op e

  abbrev pub checked : {A : Type 0} → String → Exec W A → Exec W A
  checked op m = branch m pure (λ e. raise (cluster_error op e))

  -- after the deployment was created; if the service is refused, the deployment is deleted again
  unfoldable pub create_service : DeploymentSpec → String → Exec W (Unit {0})
  create_service spec ns = branch (c.create_service_request ns (service_of spec ns)) pure (λ e.
      branch (c.delete_deployment_request false ns spec.name)
        (λ _. raise (cluster_error ("create service " <> spec.name) e))
        (λ _. raise (cluster_error ("create service " <> spec.name) e)))

  unfoldable pub create_deployment : DeploymentSpec → Exec W (Unit {0})
  unfolding create_service
  create_deployment spec =
      let ns = or_namespace spec.namespace c.namespace in
      if is_below_one spec.min_scale then raise (external "MinScale must be >= 1") else (do
        checked ("create deployment " <> spec.name)
            (c.create_deployment_request ns (deployment_of spec ns))
        create_service spec ns)

  unfoldable pub update_deployment_replicas : String → ℤ → Exec W (Unit {0})
  update_deployment_replicas name replicas = do
    deploy ← checked ("get deployment " <> name) (c.get_deployment_request c.namespace name)
    checked ("update deployment replicas " <> name)
        (c.update_deployment_request c.namespace (record deploy { replicas = replicas }))

  -- the error of the first deletion, or else that of the second, which is made in any case
  unfoldable pub delete_deployment : String → Exec W (Unit {0})
  delete_deployment name =
      branch (c.delete_deployment_request true c.namespace name)
        (λ _. checked ("delete service " <> name) (c.delete_service_request true c.namespace name))
        (λ e.
          branch (c.delete_service_request true c.namespace name)
            (λ _. raise (cluster_error ("delete deployment " <> name) e))
            (λ _. raise (cluster_error ("delete deployment " <> name) e)))

  unfoldable pub get_deployment_cluster_ip : String → Exec W String
  get_deployment_cluster_ip name = do
    ip ← checked ("get service ClusterIP for " <> name) (c.cluster_ip_request c.namespace name)
    if ip == "" || ip == "None" then raise (external "no ClusterIP assigned yet") else pure ip

  unfoldable pub watch_deployment_rollout : String → ℤ → Exec W (Unit {0})
  unfolding follow_rollout
  watch_deployment_rollout name min_ready = do
    signals ← checked ("watch deployment " <> name) (c.watch_deployment_request c.namespace name)
    of_result (follow_rollout name min_ready signals)

  unfoldable pub create_ingress : IngressSpec → Exec W (Unit {0})
  create_ingress spec =
      let ns = or_namespace spec.namespace c.namespace in
      checked ("create ingress " <> spec.name) (c.create_ingress_request ns (ingress_of spec ns))

  unfoldable pub delete_ingress : String → Exec W (Unit {0})
  delete_ingress name =
      checked ("delete ingress " <> name) (c.delete_ingress_request c.namespace name)
