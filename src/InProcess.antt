-- ===== src/InProcess.antt =====
-- internal/local/runner.go: a run of the engine over a memory store of its own.
pub mod Outcome
use state_graph.Prelude.{String, ℕ, Option, none, some, if◌then◌else◌}
use state_graph.Dict.{lookup, insert}
use state_graph.Values.{Obj, str, Status, pending, running, completed, failed, handler_unknown}
use state_graph.Exec.{Exec, pure, raise, panic, of_result, branch, ◌>>=◌, ◌>>◌}
use state_graph.Workflow.{TaskDef, Workflow, HandlerFunc, ChoiceFunc, is_choice}
use state_graph.Graph.{build}
use state_graph.Store.{ExecutionRecord}
use state_graph.Store.Memory.Services.{World, memory_store}
use state_graph.Executor.{Executor, Runtime, run}

abbrev pub new_execution : String → String → Obj → ExecutionRecord
new_execution exec_id workflow input = record {
  id = exec_id;
  workflow = workflow;
  status = pending;
  input = some input;
  created_at = 0;
  updated_at = 0;
}

module _ {U : Type 0} where
  -- an executor with the memory store and a handler, and nothing else
  abbrev pub local_executor : (String → Obj → Exec (World U) Obj) → Executor (World U)
  local_executor handler = record {
    store = memory_store;
    handler = handler;
    dispatcher = none;
    telemetry = λ _ _ _ _ _ w. w;
    notify = λ _ _ _ _ _ w. w;
    log_writer = λ _ _ _ w. w;
  }

  abbrev pub call_choice : Option (ChoiceFunc (World U)) → Obj → Exec (World U) Obj
  call_choice none inp = panic
  call_choice (some fn) inp = do choice ← fn inp; pure (insert "__choice__" (str choice) inp)

  abbrev pub call_fn : Option (HandlerFunc (World U)) → Obj → Exec (World U) Obj
  call_fn none inp = panic
  call_fn (some fn) inp = fn inp

  abbrev pub call_task : Option (TaskDef (World U)) → String → Obj → Exec (World U) Obj
  call_task none name inp = raise (handler_unknown name)
  call_task (some td) name inp =
      if is_choice td.kind then call_choice td.choice_fn inp else call_fn td.fn inp

  unfoldable pub inline_handler : Workflow (World U) → String → Obj → Exec (World U) Obj
  inline_handler w name inp = call_task (lookup name w.tasks) name inp

  -- `_ = ms.UpdateExecution(...)`
  abbrev pub set_final : String → Status → Exec (World U) (Unit {0})
  set_final exec_id status =
      branch (memory_store.update_execution exec_id status) pure (λ _. pure tt)

  module _ (rt : Runtime (World U)) where
    -- RunLocal from the new memory store on, with the id that newUUID returned
    unfoldable pub run_local : ℕ → ℕ → String → Workflow (World U) → Obj → Exec (World U) (Unit {0})
    run_local depth fuel exec_id w input = do
      g ← of_result (build w)
      memory_store.create_execution (new_execution exec_id w.name input)
      memory_store.update_execution exec_id running
      branch (run rt (local_executor (inline_handler w)) exec_id depth fuel g input)
          (λ _. set_final exec_id completed) (λ failure. do set_final exec_id failed; raise failure)
