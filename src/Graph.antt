-- ===== src/Graph.antt =====
-- internal/engine/graph.go: a workflow compiled to a graph of nodes.
pub mod Build
pub mod Next
pub mod Proto
pub mod Services
use state_graph.Prelude.{
  String, ℤ, scale, Bool, true, false, not, ◌&&◌, ◌||◌, ◌==◌, Option, none, some, List, [], ◌∷◌,
  map, if◌then◌else◌,
}
use state_graph.Dict.{Dict, lookup, insert}
use state_graph.Values.{Obj, unknown_task, no_next, choice_unknown, next_not_found}
use state_graph.Exec.{Result, ok, err, Exec, pure}
use state_graph.Workflow.{
  TaskDef, StepBuilder, Workflow, RetryPolicy, is_choice, succeed, fail, new, task, wait, configure,
  set_catch, invoke_service, flow, step, step_end, step_next, step_catch,
}
use state_graph.Workflow.Validate.{validate}

pub record Node (W : Type 0) : Type 0 where
  pub name : String
  pub task_def : TaskDef W
  pub next : String
  pub catch : String
  pub retry : Option RetryPolicy
  pub terminal : Bool

pub record Graph (W : Type 0) : Type 0 where
  pub nodes : Dict (Node W)
  pub entry : String

-- a step-level setting overrides the task's
abbrev pub catch_or : String → String → String
catch_or own default = if own == "" then default else own

abbrev pub retry_or : Option RetryPolicy → Option RetryPolicy → Option RetryPolicy
retry_or none default = default
retry_or (some own) default = some own

-- the name of the step with index 0
abbrev pub entry_of : List StepBuilder → String
entry_of [] = ""
entry_of (s ∷ _) = s.name

module _ {W : Type 0} where
  unfoldable pub node_of : StepBuilder → TaskDef W → Node W
  node_of s td = record {
    name = s.name;
    task_def = td;
    next = s.next;
    catch = catch_or s.catch td.catch;
    retry = retry_or s.retry td.retry;
    terminal = s.next == succeed || s.next == fail;
  }

  -- the loop of `Build`, over the steps that are left
  unfoldable pub build_nodes :
      Dict (TaskDef W) → List StepBuilder → Dict (Node W) → Result (Dict (Node W))
  unfolding node_of
  build_nodes tasks [] nodes = ok nodes
  build_nodes tasks (s ∷ steps) nodes = elim (lookup s.name tasks) [
    | none ↦ err (unknown_task s.name)
    | some td ↦
        let rest = build_nodes tasks steps (insert s.name (node_of s td) nodes) in
        if s.next == "" && not s.is_end then err (no_next s.name) else rest
  ]

  abbrev pub with_entry : String → Result (Dict (Node W)) → Result (Graph W)
  with_entry entry (ok nodes) = ok (record { nodes = nodes; entry = entry })
  with_entry entry (err e) = err e
  with_entry entry Result.panics = Result.panics
  with_entry entry Result.running = Result.running

  unfoldable pub build : Workflow W → Result (Graph W)
  unfolding build_nodes
  build w = elim (validate w) [
    | some e ↦ err e
    | none ↦ with_entry (entry_of w.steps) (build_nodes w.tasks w.steps [])
  ]

  -- EntryNode and Node: a key that is missing gives a nil pointer
  unfoldable pub node : Graph W → String → Option (Node W)
  node g name = lookup name g.nodes

  unfoldable pub entry_node : Graph W → Option (Node W)
  unfolding node
  entry_node g = node g g.entry

  -- `none` is the nil node with which the run ends
  unfoldable pub next : Graph W → Node W → String → Result (Option (Node W))
  next g n key =
      if n.terminal
      then ok none
      else if is_choice n.task_def.kind
      then (elim (lookup key g.nodes) [
        | some m ↦ ok (some m)
        | none ↦ err (choice_unknown n.name key)
      ])
      else elim (lookup n.next g.nodes) [
        | some m ↦ ok (some m)
        | none ↦ err (next_not_found n.name n.next)
      ]

-- what `BuildFromProto` reads of the messages of proto/kflow/v1/types.proto
pub record WorkflowState : Type 0 where
  pub name : String
  pub kind : String
  pub service_target : String
  pub wait_seconds : ℤ
  pub catch_state : String

pub record WorkflowStep : Type 0 where
  pub name : String
  pub next : String
  pub catch : String
  pub is_end : Bool

pub record WorkflowGraph : Type 0 where
  pub name : String
  pub states : List WorkflowState
  pub steps : List WorkflowStep
  pub image : String

abbrev pub unless_empty {ℓ} : {A : Type ℓ} → String → (String → A → A) → A → A
unless_empty s f a = if s == "" then a else f s a

module _ {W : Type 0} where
  -- the no-op handler of a state that came over the wire
  abbrev pub no_op : Obj → Exec W Obj
  no_op input = pure []

  unfoldable pub add_state : WorkflowState → Workflow W → Workflow W
  add_state s w =
      unless_empty s.service_target (λ target. configure s.name (invoke_service target))
        (unless_empty s.catch_state (λ state. configure s.name (set_catch state))
          (if s.kind == "wait"
            then wait s.name (scale 1000000000 s.wait_seconds) w
            else task s.name (some no_op) w))

  unfoldable pub add_states : List WorkflowState → Workflow W → Workflow W
  unfolding add_state
  add_states [] w = w
  add_states (s ∷ states) w = add_states states (add_state s w)

unfoldable pub step_of : WorkflowStep → StepBuilder
step_of ps =
    unless_empty ps.catch step_catch
      (if ps.is_end then step_end (step ps.name) else unless_empty ps.next step_next (step ps.name))

unfoldable pub build_from_proto : {W : Type 0} → WorkflowGraph → Result (Graph W)
unfolding build add_states step_of
build_from_proto p = build (flow (map step_of p.steps) (add_states p.states (new p.name)))
