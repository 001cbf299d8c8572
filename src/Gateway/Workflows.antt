-- ===== src/Gateway/Workflows.antt =====
-- internal/grpc/gateway.go, WorkflowService.
use state_graph.Prelude.{String, ℕ, ◌==◌, Option, none, some, List, if◌then◌else◌}
use state_graph.Dict.{lookup, insert}
use state_graph.Values.{Obj, pending, not_found, invalid_argument, internal, wrapped, external}
use state_graph.Exec.{if_found, Exec, pure, raise, branch, inspect, act, ◌>>◌}
use state_graph.Graph.{WorkflowGraph}
use state_graph.Store.{ExecutionRecord, Store}
use state_graph.Store.Memory.{values}
use state_graph.Gateway.{Registry, below}
use state_graph.Gateway.Uuid.{gen_uuid}

abbrev graph_name : Option WorkflowGraph → String
graph_name none = ""
graph_name (some g) = g.name

-- the record that RunWorkflow and its HTTP twin create; the store sets the rest
abbrev pub new_record : String → String → Option Obj → ExecutionRecord
new_record exec_id name input = record {
  id = exec_id;
  workflow = name;
  status = pending;
  input = input;
  created_at = 0;
  updated_at = 0;
}

module _ {W : Type 0} where
  abbrev pub add_workflow : WorkflowGraph → Registry WorkflowGraph W → Registry WorkflowGraph W
  add_workflow g s = record s { workflows = insert g.name g s.workflows }

  -- a message without a graph has the name ""
  unfoldable pub register_workflow : Option WorkflowGraph → Exec (Registry WorkflowGraph W) String
  register_workflow none = raise (invalid_argument "workflow name is required")
  register_workflow (some g) =
      if g.name == ""
      then raise (invalid_argument "workflow name is required")
      else (do act (add_workflow g); pure g.name)

  unfoldable pub get_workflow : String → Exec (Registry WorkflowGraph W) WorkflowGraph
  get_workflow name = inspect λ s. if_found (lookup name s.workflows) (raise (not_found name)) pure

  unfoldable pub list_workflows : Exec (Registry WorkflowGraph W) (List WorkflowGraph)
  list_workflows = inspect λ s. pure (values s.workflows)

  abbrev start :
      Option (String → WorkflowGraph → Option Obj → W → W)
      → String
      → WorkflowGraph
      → Option Obj
      → Exec W (Unit {0})
  start none exec_id graph input = pure tt
  start (some go) exec_id graph input = act (go exec_id graph input)

  -- `trigger` starts the goroutine that drives the execution; it may be nil.
  module _ (store : Store W) (rand_read : Exec W (ℕ → ℕ))
      (trigger : Option (String → WorkflowGraph → Option Obj → W → W)) where
    abbrev create : String → Option Obj → WorkflowGraph → String → Exec W String
    create name input graph exec_id =
        branch (store.create_execution (new_record exec_id name input))
          (λ _. do start trigger exec_id graph input; pure exec_id)
          (λ e. raise (internal (wrapped "create execution" "" e)))

    unfoldable pub run_workflow : String → Option Obj → Exec (Registry WorkflowGraph W) String
    unfolding gen_uuid
    run_workflow name input = inspect λ s.
        if_found (lookup name s.workflows) (raise (not_found name)) λ graph. below (
          branch (gen_uuid rand_read) (create name input graph)
            (λ _. raise (internal (external "failed to generate execution ID"))))
