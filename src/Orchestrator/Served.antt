-- ===== src/Orchestrator/Served.antt =====
-- The workflows that the gateway runs by `trigger`.
use state_graph.Prelude.{String, ℕ, Option}
use state_graph.Dict.{insert}
use state_graph.Values.{Obj, pending}
use state_graph.Exec.{Exec}
use state_graph.Graph.{WorkflowGraph}
use state_graph.Store.{ExecutionRecord}
use state_graph.Store.Memory.Services.{World}
use state_graph.Callback.{output_or_nil}
use state_graph.Orchestrator.{ControlPlane, trigger}

-- the goroutine that RunWorkflow starts, run to its end before anything else
abbrev pub at_once :
    {W : Type 0} → ControlPlane W → ℕ → ℕ → String → WorkflowGraph → Option Obj → W → W
at_once p depth fuel exec_id graph input w =
    (trigger p depth fuel exec_id graph (output_or_nil input) w).1

-- the record of a new execution
abbrev pub accepted : String → String → Option Obj → ℕ → ExecutionRecord
accepted exec_id name input now = record {
  id = exec_id;
  workflow = name;
  status = pending;
  input = input;
  created_at = now;
  updated_at = now;
}

-- the world in which the execution starts
abbrev pub with_execution : {U : Type 0} → String → String → Option Obj → World U → World U
with_execution exec_id name input w = record w {
  memory = record w.memory {
    executions = insert exec_id (accepted exec_id name input w.clock) w.memory.executions;
  };
}
