-- ===== src/Kubernetes/Jobs.antt =====
-- internal/engine/k8s_executor.go: the handler that runs a state as a job and waits for it.
use state_graph.Prelude.{
  String, ℕ, pos, ◌==◌, Option, List, [], ◌∷◌, Bool, true, false, none, some, if◌then◌else◌,
}
use Prim.Native.String.{◌++◌ as ◌<>◌}
use state_graph.Values.{
  Obj, Status, pending, running, completed, failed, Error, empty_job_name, watch_closed, job_failed,
  wrapped,
}
use state_graph.Exec.{
  wrap, Result, ok, err, Exec, pure, raise, inspect, of_result, act, branch, ◌>>=◌, ◌>>◌,
}
use state_graph.Store.{Store}
use state_graph.Graph.{Graph}
use state_graph.Executor.{Executor, Runtime, LogLine, run}
use state_graph.Callback.Token.{Bytes, Crypto, generate_state_token}
use state_graph.Kubernetes.{Unicode, job_name}

pub record JobSpec : Type 0 where
  pub name : String
  pub image : String
  pub args : List String
  pub env : List (String × String)

pub record JobResult : Type 0 where
  pub succeeded : Bool
  pub failed : Bool
  pub message : String

-- What a watch of a job delivers: ctx.Done(), the end of the channel, or an event.
pub data JobCondition : Type 0 where
  complete_condition : Bool → JobCondition
  failed_condition : Bool → String → JobCondition
  other_condition : JobCondition

pub data Signal : Type 0 where
  context_done : Error → Signal
  channel_closed : Signal
  job_changed : List JobCondition → Signal  -- Added or Modified, with a job
  other_event : Signal

-- The requests to the cluster's API, what the code uses of `time` and `unicode`, the packages that
-- sign tokens, and StreamJobLogs. A watch gives the signals it delivers, in order.
pub record Cluster (W : Type 0) : Type 0 where
  pub create_request : JobSpec → Exec W (Unit {0})
  pub watch_request : String → Exec W (List Signal)
  pub delete_request : String → Exec W (Unit {0})
  pub stream_logs : String → String → String → W → W
  pub unix_now : W → ℕ
  pub crypto : Crypto
  pub unicode : Unicode

pub record K8sExecutor (W : Type 0) : Type 0 where
  pub store : Store W
  pub cluster : Cluster W
  pub image : String
  pub runner_endpoint : String
  pub runner_token_secret : Bytes
  pub dispatcher : Option (String → String → String → Obj → Exec W Obj)
  pub telemetry : String → String → Status → Status → String → W → W
  pub notify : String → String → Status → Status → String → W → W
  pub log_writer : String → String → LogLine → W → W

-- the first condition that is terminal and true
abbrev pub terminal_result : List JobCondition → Option JobResult
terminal_result [] = none
terminal_result (complete_condition true ∷ cs) =
    some (record { succeeded = true; failed = false; message = "" })
terminal_result (failed_condition true message ∷ cs) =
    some (record { succeeded = false; failed = true; message = message })
terminal_result (_ ∷ cs) = terminal_result cs

abbrev pub or_go_on : Option JobResult → Result JobResult → Result JobResult
or_go_on none rest = rest
or_go_on (some result) rest = ok result

-- the loop of WaitForJob; a watch that delivers no more blocks it
unfoldable pub follow : String → List Signal → Result JobResult
follow name [] = Result.running
follow name (context_done e ∷ signals) = err e
follow name (channel_closed ∷ signals) = err (watch_closed name)
follow name (job_changed cs ∷ signals) = or_go_on (terminal_result cs) (follow name signals)
follow name (other_event ∷ signals) = follow name signals

module _ {W : Type 0} (c : Cluster W) where
  unfoldable pub create_job : JobSpec → Exec W String
  create_job spec =
      if spec.name == ""
      then raise empty_job_name
      else (do wrap "create job" spec.name (c.create_request spec); pure spec.name)

  unfoldable pub wait_for_job : String → Exec W JobResult
  unfolding follow
  wait_for_job name = do
    signals ← wrap "watch job" name (c.watch_request name)
    of_result (follow name signals)

  unfoldable pub delete_job : String → Exec W (Unit {0})
  delete_job name = wrap "delete job" name (c.delete_request name)

  unfoldable pub delete_job_best_effort : String → Exec W (Unit {0})
  unfolding delete_job
  delete_job_best_effort name = branch (delete_job name) pure (λ _. pure tt)

  abbrev pub job_spec : String → String → String → String → String → String → JobSpec
  job_spec name image arg exec_id token endpoint = record {
    name = name;
    image = image;
    args = arg ∷ [];
    env =
        ("KFLOW_EXECUTION_ID", exec_id)
        ∷ ("KFLOW_STATE_TOKEN", token)
        ∷ ("KFLOW_GRPC_ENDPOINT", endpoint)
        ∷ [];
  }

module _ {W : Type 0} (e : K8sExecutor W) (exec_id : String) where
  abbrev pub report : String → Status → Status → String → Exec W (Unit {0})
  report name from to msg = do
    act (e.telemetry exec_id name from to msg)
    act (e.notify exec_id name from to msg)

  unfoldable pub job_has_failed : String → String → String → Exec W Obj
  unfolding delete_job_best_effort
  job_has_failed state_name name message = do
    delete_job_best_effort e.cluster name
    report state_name running failed message
    raise (job_failed state_name message)

  -- from the end of the wait on
  unfoldable pub collect : String → String → JobResult → Exec W Obj
  unfolding delete_job_best_effort job_has_failed
  collect state_name name result = do
    act (e.cluster.stream_logs name exec_id state_name)
    if result.failed
        then job_has_failed state_name name result.message
        else branch (e.store.get_state_output exec_id state_name)
            (λ output. do
              delete_job_best_effort e.cluster name
              report state_name running completed ""
              pure output)
            (λ failure. do
              delete_job_best_effort e.cluster name
              raise (wrapped "get output" state_name failure))

  unfoldable pub handle : String → Exec W Obj
  unfolding create_job wait_for_job delete_job_best_effort collect
  handle state_name =
      let name = job_name e.cluster.unicode exec_id state_name in
      do
        token ← wrap "generate token" state_name (
            inspect λ w. of_result (
              generate_state_token e.cluster.crypto (e.cluster.unix_now w) exec_id state_name
                (pos 1) e.runner_token_secret))
        report state_name pending running ""
        wrap "create job" state_name (
            create_job e.cluster (
              job_spec e.cluster name e.image ("--state=" <> state_name) exec_id token
                e.runner_endpoint))
        branch (wait_for_job e.cluster name) (collect state_name name) (λ failure. do
          delete_job_best_effort e.cluster name
          raise (wrapped "wait for job" name failure))

  abbrev pub executor : Executor W
  executor = record {
    store = e.store;
    handler = λ state_name input. handle state_name;
    dispatcher = e.dispatcher;
    telemetry = e.telemetry;
    notify = e.notify;
    log_writer = e.log_writer;
  }

  unfoldable pub run_on_cluster : Runtime W → ℕ → ℕ → Graph W → Obj → Exec W (Unit {0})
  run_on_cluster rt depth fuel g input = run rt executor exec_id depth fuel g input
