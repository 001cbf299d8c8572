-- ===== src/Kubernetes/Dispatch.antt =====
-- internal/controller/service_dispatcher.go: the services that `InvokeService` calls.
use Prim.Native.String.{◌++◌ as ◌<>◌}
use state_graph.Prelude.{String, ℕ, pos, not, ltb, Option, Bool, true, false, if◌then◌else◌}
use state_graph.Values.{
  Obj, Error, service_not_found, service_unknown, service_not_running, job_failed, wrapped,
}
use state_graph.Exec.{wrap, Result, Exec, pure, raise, inspect, of_result, act, branch, ◌>>=◌, ◌>>◌}
use state_graph.Store.{Store, ServiceRecord, deployment, lambda, ServiceStatus}
use state_graph.Callback.Token.{Bytes, generate_state_token}
use state_graph.Callback.{output_or_nil}
use state_graph.Kubernetes.{job_name}
use state_graph.Kubernetes.Jobs.{
  Cluster, create_job, wait_for_job, delete_job_best_effort, job_spec,
}

-- The dispatcher, and what it uses of `grpc` and `structpb`: the connection to an address, with the
-- request made on it, and the encoding of the input. No result is a nil struct. `metrics` takes no
-- duration, which only the clock gives.
pub record ServiceDispatcher (W : Type 0) : Type 0 where
  pub store : Store W
  pub cluster : Cluster W
  pub image : String
  pub runner_endpoint : String
  pub runner_token_secret : Bytes
  pub service_grpc_port : ℕ
  pub metrics : String → String → ℕ → String → W → W
  pub message : Error → String
  pub format_address : String → ℕ → String
  pub connect : String → Exec W (Unit {0})
  pub close : String → W → W
  pub new_struct : Obj → Result Obj
  pub invoke : String → Obj → Exec W (Option Obj)

abbrev pub is_running : ServiceStatus → Bool
is_running ServiceStatus.running = true
is_running _ = false

abbrev pub is_service_not_found : Error → Bool
is_service_not_found service_not_found = true
is_service_not_found _ = false

-- a deferred call: it runs however the body ends
unfoldable pub finally : {W A : Type 0} → (W → W) → Exec W A → Exec W A
finally f m w = let (r, w') = m w in (r, f w')

module _ {W : Type 0} (d : ServiceDispatcher W) (exec_id state_name service : String) where
  abbrev pub service_port : ℕ
  service_port = if not (ltb 0 d.service_grpc_port) then 9091 else d.service_grpc_port

  -- the request on an open connection
  unfoldable pub request : Obj → Exec W Obj
  request input = do
    payload ← wrap "encode input" service (of_result (d.new_struct input))
    result ← wrap "invoke service" service (d.invoke service payload)
    pure (output_or_nil result)

  unfoldable pub dispatch_deployment : ServiceRecord → Obj → Exec W Obj
  unfolding finally request
  dispatch_deployment rec input =
      let address = d.format_address rec.cluster_ip service_port in
      do wrap "dial service" service (d.connect address); finally (d.close address) (request input)

  unfoldable pub dispatch_lambda : Exec W Obj
  unfolding create_job wait_for_job delete_job_best_effort
  dispatch_lambda =
      let name = job_name d.cluster.unicode exec_id state_name in
      let cleanup = delete_job_best_effort d.cluster name in
      do
        token ← wrap "generate token" state_name (
            inspect λ w. of_result (
              generate_state_token d.cluster.crypto (d.cluster.unix_now w) exec_id state_name
                (pos 1) d.runner_token_secret))
        wrap "create job" service (
            create_job d.cluster (
              job_spec d.cluster name d.image ("--service=" <> service) exec_id token
                d.runner_endpoint))
        branch (wait_for_job d.cluster name)
            (λ result.
              if result.failed
              then (do cleanup; raise (job_failed service result.message))
              else branch (d.store.get_state_output exec_id state_name)
                  (λ output. do cleanup; pure output)
                  (λ failure. do cleanup; raise (wrapped "get output" service failure)))
            (λ failure. do cleanup; raise (wrapped "wait for job" service failure))

  unfoldable pub by_mode : ServiceRecord → Obj → Exec W Obj
  unfolding dispatch_deployment dispatch_lambda
  by_mode rec input = elim rec.mode [
    | deployment ↦ dispatch_deployment rec input
    | lambda ↦ dispatch_lambda
  ]

  -- the metrics of a finished call, with its status code
  abbrev pub measured : Exec W Obj → Exec W Obj
  measured m =
      branch m
        (λ output. do act (d.metrics service (exec_id <> ":" <> state_name) 200 ""); pure output)
        (λ failure. do
          act (d.metrics service (exec_id <> ":" <> state_name) 500 (d.message failure))
          raise failure)

  unfoldable pub dispatch : Obj → Exec W Obj
  unfolding by_mode
  dispatch input =
      branch (d.store.get_service service)
        (λ rec.
          if not (is_running rec.status)
          then raise (service_not_running service)
          else measured (by_mode rec input))
        (λ failure. raise (
          if is_service_not_found failure
          then service_unknown service
          else wrapped "get service" service failure))
