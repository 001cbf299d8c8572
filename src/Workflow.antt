-- ===== src/Workflow.antt =====
-- pkg/kflow/workflow.go and state.go: the definition of a workflow and its builders.
pub mod Validate
pub mod WellFormed
use state_graph.Prelude.{
  String, ℤ, pos, Bool, true, false, Option, none, some, List, [], ◌∷◌, ◌++◌, ◌||◌, ◌==◌,
}
use state_graph.Dict.{Dict, lookup, insert}
use state_graph.Values.{Obj}
use state_graph.Exec.{Exec}

abbrev pub HandlerFunc : Type 0 → Type 0
HandlerFunc W = Obj → Exec W Obj

abbrev pub ChoiceFunc : Type 0 → Type 0
ChoiceFunc W = Obj → Exec W String

pub record RetryPolicy : Type 0 where
  pub max_attempts : ℤ
  pub backoff_seconds : ℤ

pub data StateKind : Type 0 where
  task_state choice_state wait_state parallel_state : StateKind

abbrev pub succeed : String
succeed = "__succeed__"

abbrev pub fail : String
fail = "__fail__"

abbrev pub is_sentinel : String → Bool
is_sentinel name = name == succeed || name == fail

pub record TaskDef (W : Type 0) : Type 0 where
  pub name : String
  pub fn : Option (HandlerFunc W)
  pub choice_fn : Option (ChoiceFunc W)
  pub service_target : String
  pub retry : Option RetryPolicy
  pub catch : String
  pub kind : StateKind
  pub wait_dur : ℤ

pub record StepBuilder : Type 0 where
  pub name : String
  pub next : String
  pub catch : String
  pub retry : Option RetryPolicy
  pub is_end : Bool

pub record Workflow (W : Type 0) : Type 0 where
  pub name : String
  pub image : String
  pub tasks : Dict (TaskDef W)
  pub steps : List StepBuilder
  pub names : List String

abbrev pub is_task : StateKind → Bool
is_task task_state = true
is_task _ = false

abbrev pub is_choice : StateKind → Bool
is_choice choice_state = true
is_choice _ = false

abbrev pub is_wait : StateKind → Bool
is_wait wait_state = true
is_wait _ = false

module _ {W : Type 0} where
  unfoldable pub new : String → Workflow W
  new name = record { name = name; image = ""; tasks = []; steps = []; names = [] }

  abbrev pub blank : String → StateKind → TaskDef W
  blank name kind = record {
    name = name;
    fn = none;
    choice_fn = none;
    service_target = "";
    retry = none;
    catch = "";
    kind = kind;
    wait_dur = pos 0;
  }

  -- w.tasks[name] = td; w.names = append(w.names, name)
  abbrev pub register : TaskDef W → Workflow W → Workflow W
  register td w = record w { tasks = insert td.name td w.tasks; names = w.names ++ td.name ∷ [] }

  -- `none` is a nil function
  unfoldable pub task : String → Option (HandlerFunc W) → Workflow W → Workflow W
  task name fn = register (record (blank name task_state) { fn = fn })

  unfoldable pub choice : String → Option (ChoiceFunc W) → Workflow W → Workflow W
  choice name fn = register (record (blank name choice_state) { choice_fn = fn })

  unfoldable pub wait : String → ℤ → Workflow W → Workflow W
  wait name dur = register (record (blank name wait_state) { wait_dur = dur })

  unfoldable pub parallel : String → Option (HandlerFunc W) → Workflow W → Workflow W
  parallel name fn = register (record (blank name parallel_state) { fn = fn })

  -- A method of the `*TaskDef` that the last registration of `name` returned: the pointer is the
  -- map's entry, so the entry changes.
  unfoldable pub configure : String → (TaskDef W → TaskDef W) → Workflow W → Workflow W
  configure name f w = record w {
    tasks = elim (lookup name w.tasks) [ none ↦ w.tasks | some td ↦ insert name (f td) w.tasks ];
  }

  abbrev pub invoke_service : String → TaskDef W → TaskDef W
  invoke_service target t = record t { service_target = target }

  abbrev pub set_retry : RetryPolicy → TaskDef W → TaskDef W
  set_retry p t = record t { retry = some p }

  abbrev pub set_catch : String → TaskDef W → TaskDef W
  set_catch state t = record t { catch = state }

  unfoldable pub flow : List StepBuilder → Workflow W → Workflow W
  flow steps w = record w { steps = steps }

  unfoldable pub with_image : String → Workflow W → Workflow W
  with_image image w = record w { image = image }

abbrev pub step : String → StepBuilder
step name = record { name = name; next = ""; catch = ""; retry = none; is_end = false }

abbrev pub step_next : String → StepBuilder → StepBuilder
step_next state s = record s { next = state }

abbrev pub step_catch : String → StepBuilder → StepBuilder
step_catch state s = record s { catch = state }

abbrev pub step_retry : RetryPolicy → StepBuilder → StepBuilder
step_retry p s = record s { retry = some p }

abbrev pub step_end : StepBuilder → StepBuilder
step_end s = record s { next = succeed; is_end = true }
