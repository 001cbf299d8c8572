-- ===== src/Orchestrator.antt =====
-- cmd/orchestrator/main.go: what the control plane does with a triggered execution, and the modes of
-- the binary that run inside a job.

pub mod Modes
pub mod Outcome
pub mod Startup
pub mod Required
pub mod Served
use state_graph.Prelude.{String, ℕ, ◌==◌, not, Option, none, some, if◌then◌else◌}
use state_graph.Values.{Obj, Status, completed, failed}
use state_graph.Exec.{Exec, pure, of_result, branch}
use state_graph.Graph.{Graph, WorkflowGraph, build_from_proto}
use state_graph.Store.{Time, Store}
use state_graph.Executor.{Executor, Runtime, LogLine, run}
use state_graph.Callback.Token.{Bytes}
use state_graph.Kubernetes.Jobs.{Cluster, K8sExecutor, run_on_cluster}
use state_graph.Api.Events.{WsEvent, state_transition}

-- What runServerMode has put together when it hands `trigger` to the servers. The client of the
-- cluster is nil where it could not be made; the writers of telemetry leave the world alone where
-- ClickHouse is not set up. `broadcast` is that of the hub.
pub record ControlPlane (W : Type 0) : Type 0 where
  pub store : Store W
  pub cluster : Option (Cluster W)
  pub runner_endpoint : String
  pub runner_token_secret : Bytes
  pub dispatch : String → String → String → Obj → Exec W Obj
  pub event_writer : String → String → Status → Status → String → W → W
  pub log_writer : String → String → LogLine → W → W
  pub broadcast : WsEvent → W → W
  pub now : W → Time
  pub runtime : Runtime W

-- the handler of the pass-through executor
abbrev pub pass_through : {W : Type 0} → String → Obj → Exec W Obj
pass_through name input = pure input

module _ {W : Type 0} (p : ControlPlane W) where
  abbrev pub notify : String → String → Status → Status → String → W → W
  notify exec_id name from to msg w =
      p.broadcast
        (record {
          payload = state_transition (record {
            execution_id = exec_id;
            state_name = name;
            from_status = from;
            to_status = to;
            error = msg;
          });
          timestamp = p.now w;
        })
        w

  abbrev pub on_cluster : Cluster W → String → K8sExecutor W
  on_cluster c image = record {
    store = p.store;
    cluster = c;
    image = image;
    runner_endpoint = p.runner_endpoint;
    runner_token_secret = p.runner_token_secret;
    dispatcher = some p.dispatch;
    telemetry = p.event_writer;
    notify = notify;
    log_writer = p.log_writer;
  }

  abbrev pub in_process : Executor W
  in_process = record {
    store = p.store;
    handler = pass_through;
    dispatcher = some p.dispatch;
    telemetry = p.event_writer;
    notify = notify;
    log_writer = p.log_writer;
  }

  -- as a job each state, if there is a cluster and the workflow has an image; else in the process
  abbrev pub run_with :
      Option (Cluster W) → String → String → ℕ → ℕ → Graph W → Obj → Exec W (Unit {0})
  run_with none image exec_id depth fuel g input =
      run p.runtime in_process exec_id depth fuel g input
  run_with (some c) image exec_id depth fuel g input =
      if not (image == "")
      then run_on_cluster (on_cluster c image) exec_id p.runtime depth fuel g input
      else run p.runtime in_process exec_id depth fuel g input

  -- `_ = ms.UpdateExecution(...)`
  abbrev pub settle : String → Status → Exec W (Unit {0})
  settle exec_id status = branch (p.store.update_execution exec_id status) pure (λ _. pure tt)

  -- The body of `trigger`; `depth` and `fuel` are those of the executor.
  unfoldable pub trigger : ℕ → ℕ → String → WorkflowGraph → Obj → Exec W (Unit {0})
  trigger depth fuel exec_id graph input =
      branch (of_result (build_from_proto graph))
        (λ g.
          branch (run_with p.cluster graph.image exec_id depth fuel g input)
            (λ _. settle exec_id completed) (λ _. settle exec_id failed))
        (λ _. settle exec_id failed)
