-- ===== src/Local/Json.antt =====
-- pkg/kflow/graph_json.go, the body of RegisterWorkflow.
use state_graph.Prelude.{String, ℤ, pos, none, some, List, [], ◌∷◌, map, if◌then◌else◌}
use state_graph.Dict.{Dict, lookup}
use state_graph.Workflow.{
  TaskDef, StepBuilder, Workflow, StateKind, task_state, choice_state, wait_state, parallel_state,
  is_wait,
}
use state_graph.Graph.{WorkflowState, WorkflowStep, WorkflowGraph}

-- The JSON names are those of the messages, so the messages' records stand for the JSON structs.
abbrev pub kind_text : StateKind → String
kind_text choice_state = "choice"
kind_text wait_state = "wait"
kind_text parallel_state = "parallel"
kind_text task_state = "task"

abbrev pub step_json : StepBuilder → WorkflowStep
step_json s = record { name = s.name; next = s.next; catch = s.catch; is_end = s.is_end }

module _ (seconds : ℤ → ℤ) {W : Type 0} where
  -- `seconds` is int64(d.Seconds()), by the package `time`
  unfoldable pub state_json : TaskDef W → WorkflowState
  state_json td = record {
    name = td.name;
    kind = kind_text td.kind;
    service_target = td.service_target;
    wait_seconds = if is_wait td.kind then seconds td.wait_dur else pos 0;
    catch_state = td.catch;
  }

  -- the states of the steps that have a task
  unfoldable pub states_json : Dict (TaskDef W) → List StepBuilder → List WorkflowState
  unfolding state_json
  states_json tasks [] = []
  states_json tasks (s ∷ steps) = elim (lookup s.name tasks) [
    | none ↦ states_json tasks steps
    | some td ↦ state_json td ∷ states_json tasks steps
  ]

  unfoldable pub to_register_json : Workflow W → WorkflowGraph
  unfolding states_json
  to_register_json w = record {
    name = w.name;
    states = states_json w.tasks w.steps;
    steps = map step_json w.steps;
    image = w.image;
  }
