-- ===== src/Scenarios/Failures.antt =====
-- A state that fails and is caught, and a listing.
use state_graph.Prelude.{List, ℕ, ◌≡◌, arith, String, ℕ, suc, pos, ◌≡◌, true, none, [], ◌∷◌, arith}
use state_graph.Values.{Obj, external}
use state_graph.Exec.{err, Exec}
use state_graph.Workflow.{blank, task_state}
use state_graph.Graph.{Node, Graph}
use state_graph.Store.{ExecutionRecord, ExecutionFilter}
use state_graph.Store.Memory.{MemoryStore, new_memory_store, values, list_executions}
use state_graph.Store.Memory.Services.{World}
use state_graph.Store.Filters.{Filters}
use state_graph.Store.Memory.Listing.{Matches, IsLimit, window, list_executions-window}
use state_graph.InProcess.{new_execution}

abbrev refund_node : Node (World ℕ)
refund_node = record {
  name = "refund";
  task_def = blank "refund" task_state;
  next = "__succeed__";
  catch = "";
  retry = none;
  terminal = true;
}

abbrev guarded_node : Node (World ℕ)
guarded_node = record refund_node { name = "charge"; catch = "refund" }

abbrev guarded_graph : Graph (World ℕ)
guarded_graph = record {
  nodes = ("charge", guarded_node) ∷ ("refund", refund_node) ∷ [];
  entry = "charge";
}

abbrev broken : String → Obj → Exec (World ℕ) Obj
broken name input w = (err (external "down"), record w { user = suc w.user })

abbrev two_runs : MemoryStore
two_runs = record new_memory_store {
  executions = ("e1", new_execution "e1" "order" []) ∷ ("e2", new_execution "e2" "order" []) ∷ [];
}

abbrev second_page : ExecutionFilter
second_page = record { workflow = "order"; status = ""; limit = pos 1; offset = pos 1 }

list_executions-window_example :
    (found : List ExecutionRecord) × (limit : ℕ) × Filters
      (Matches second_page)
      (values two_runs.executions)
      found
    × IsLimit (pos 1) limit
    × (list_executions second_page two_runs ≡ (window (pos 1) limit found, two_runs))
list_executions-window_example =
    list_executions-window second_page two_runs (omega arith) (omega arith)
