-- ===== src/Graph/Proto.antt =====
-- What is left of a workflow that comes over the wire: `BuildFromProto`.
use mathlib.Core.List.{Memᴰ}
use mathlib.Core.List.Memᴰ
use state_graph.Prelude.{
  String, scale, ◌≡◌, refl, sym, ◌∙◌, inl, inr, false, none, some, List, [], ◌∷◌, ◌++◌, map, arith,
  ◌==◌, eq_iff, eq_refl, Bool-cases, if◌then◌else◌,
}
use state_graph.Dict.{lookup, lookup-insert}
use state_graph.Exec.{ok}
use state_graph.Workflow.{
  TaskDef, StepBuilder, Workflow, task_state, is_choice, new, task, wait, configure, flow,
  set_catch, register, blank, wait_state, invoke_service,
}
use state_graph.Graph.{
  Node, Graph, node_of, WorkflowState, WorkflowStep, WorkflowGraph, unless_empty, no_op, add_state,
  add_states, step_of, build, build_from_proto, node,
}
use state_graph.Graph.Build.{build_sound}

-- the steps that came over the wire have no retry policy
step_of-retry : (ps : WorkflowStep) → (step_of ps).retry ≡ none
unfolding step_of
step_of-retry ps = ground arith

map-mem :
    (steps : List WorkflowStep) (s : StepBuilder) → Memᴰ s (map step_of steps) → s.retry ≡ none
map-mem steps s m = let (ps, _, e) = Memᴰ.of_map step_of steps m in rw (← e) (step_of-retry ps)

module _ {W : Type 0} where
  -- no retry policy, and no choice
  abbrev IsPlain : TaskDef W → Type 0
  IsPlain td = (td.retry ≡ none) × (is_choice td.kind ≡ false)

  -- `w'` is `w` with the task `td` registered last under `name`
  pub record Registers (name : String) (td : TaskDef W) (w w' : Workflow W) : Type 0 where
    pub tasks : (k : String) → lookup k w'.tasks ≡ (if name == k then some td else lookup k w.tasks)
    pub names : w'.names ≡ w.names ++ name ∷ []

  register-Registers : (td : TaskDef W) (w : Workflow W) → Registers td.name td w (register td w)
  register-Registers td w = record { tasks = λ k. lookup-insert td.name k td w.tasks; names = refl }

  configure-Registers :
      (name : String) (f : TaskDef W → TaskDef W) (td : TaskDef W) (w w' : Workflow W)
      → Registers name td w w'
      → Registers name (f td) w (configure name f w')
  unfolding configure
  configure-Registers name f td w w' r =
      let found : lookup name w'.tasks ≡ some td = r.tasks name ∙ rw eq_refl in
      record {
        tasks = λ k.
            rw (found, configure) (ground (arith, lookup-insert name k (f td) w'.tasks, r.tasks k));
        names = r.names;
      }

  -- the task that `add_state` registers
  abbrev pub task_of : WorkflowState → TaskDef W
  task_of s = unless_empty s.service_target invoke_service (
      unless_empty s.catch_state set_catch (
        if s.kind == "wait"
        then record (blank s.name wait_state) { wait_dur = scale 1000000000 s.wait_seconds }
        else record (blank s.name task_state) { fn = some no_op }))

  unless_empty-Registers :
      (set : String) (f : String → TaskDef W → TaskDef W) (name : String) (td : TaskDef W)
      (w w' : Workflow W)
      → Registers name td w w'
      → Registers name (unless_empty set f td) w (unless_empty set (λ v. configure name (f v)) w')
  unless_empty-Registers set f name td w w' r = elim (Bool-cases (set == "")) [
    | inl e ↦ rw e r
    | inr e ↦ rw e (configure-Registers name (f set) td w w' r)
  ]

  pub add_state-Registers :
      (s : WorkflowState) (w : Workflow W) → Registers s.name (task_of s) w (add_state s w)
  unfolding add_state task wait
  add_state-Registers s w = unless_empty-Registers s.service_target invoke_service s.name _ w _ (
      unless_empty-Registers s.catch_state set_catch s.name _ w _
        (elim (Bool-cases (s.kind == "wait")) [
          | inl e ↦ rw e (register-Registers _ w)
          | inr e ↦ rw e (register-Registers _ w)
        ]))

  task_of-IsPlain : (s : WorkflowState) (td : TaskDef W) → task_of s ≡ td → IsPlain td
  task_of-IsPlain s td e = rw (← e) (ground arith, ground arith)

  abbrev AllPlain : Workflow W → Type 0
  AllPlain w = (k : String) (td : TaskDef W) → lookup k w.tasks ≡ some td → IsPlain td

  add_states-AllPlain :
      (states : List WorkflowState) (w : Workflow W) → AllPlain w → AllPlain (add_states states w)
  unfolding add_states
  add_states-AllPlain [] w h = h
  add_states-AllPlain (s ∷ states) w h = add_states-AllPlain states (add_state s w) λ k td e.
      ground
        (arith, (add_state-Registers s w).tasks k, h k td, task_of-IsPlain s td, eq_iff s.name k)

  -- the workflow that `BuildFromProto` hands to `Build`
  unfoldable pub received : WorkflowGraph → Workflow W
  received p = flow (map step_of p.steps) (add_states p.states (new p.name))

  received-AllPlain : (p : WorkflowGraph) → AllPlain (received p)
  unfolding received flow new lookup
  received-AllPlain p = add_states-AllPlain p.states (new p.name) (λ k td e. cc)

  node_of_plain :
      (s : StepBuilder) (td : TaskDef W) (n : Node W)
      → n ≡ node_of s td
      → s.retry ≡ none
      → IsPlain td
      → (n.retry ≡ none) × (is_choice n.task_def.kind ≡ false)
  unfolding node_of
  node_of_plain s td n e r plain = rw e (rw r plain.0, plain.1)

  pub build-received : (p : WorkflowGraph) → build_from_proto p ≡ build (received p)
  unfolding build_from_proto received
  build-received p = refl

  -- No node of a graph built from a workflow that came over the wire has a retry policy, and none is
  -- a choice, whatever was registered.
  pub build_from_proto-plain :
      (p : WorkflowGraph) {g : Graph W}
      → build_from_proto p ≡ ok g
      → (k : String) (n : Node W) → node g k ≡ some n
      → (n.retry ≡ none) × (is_choice n.task_def.kind ≡ false)
  unfolding received flow
  build_from_proto-plain p {g} h k n found =
      let from = build_sound (received p) (sym (build-received p) ∙ h) k n found in
      node_of_plain from.step from.task n from.node_eq (map-mem p.steps from.step from.listed)
        (received-AllPlain p k from.task from.registered)
