-- ===== src/InProcess/Outcome.antt =====
-- The execution record that a local run leaves.
use state_graph.Prelude.{String, ℕ, ℤ, ◌≡◌, refl, ap, ◌∙◌, Option, none, some, inl, inr, Bool-cases}
use state_graph.Dict.{Dict, lookup, insert, lookup-insert_self}
use state_graph.Values.{Obj, Status, pending, running, completed, failed}
use state_graph.Exec.{Result, ok, err, Exec, pure, raise, of_result, branch, ◌>>◌}
use state_graph.Exec.Keeps.{Keeps}
use state_graph.Workflow.{Workflow}
use state_graph.Graph.{Graph, build}
use state_graph.Store.{Time, StateRecord, ExecutionRecord}
use state_graph.Store.Memory.{
  MemoryStore, state_key, create_execution, update_execution, write_ahead_state, mark_running,
  complete_state, fail_state, get_state_output, update_found, holds_completed,
}
use state_graph.Store.Memory.Services.{World}
use state_graph.Executor.{Runtime, run}
use state_graph.Executor.Keeps.{PartsKeep, run-Keeps}
use state_graph.InProcess.{local_executor, inline_handler, new_execution, set_final, run_local}

abbrev pub executions_of : {U : Type 0} → World U → Dict ExecutionRecord
executions_of w = w.memory.executions

abbrev pub status_of : Option ExecutionRecord → Option Status
status_of none = none
status_of (some r) = some r.status

pub update_found-executions :
    (o : Option StateRecord) (key : String) (f : StateRecord → StateRecord) (m : MemoryStore)
    → (update_found o key f m).1.executions ≡ m.executions
update_found-executions none key f m = refl
update_found-executions (some r) key f m = refl

pub write_ahead-executions :
    (now : Time) (r : StateRecord) (m : MemoryStore)
    → (write_ahead_state now r m).1.executions ≡ m.executions
unfolding write_ahead_state
write_ahead-executions now r m =
    elim (Bool-cases (holds_completed (lookup (state_key r.execution_id r.state_name) m.states))) [
      | inl e ↦ rw e refl
      | inr e ↦ rw e refl
    ]

module _ {U : Type 0} (rt : Runtime (World U)) where
  -- sleeping leaves the execution records alone
  pub record SleepKeeps : Type 0 where
    pub sleeps : (d : ℤ) (w : World U) → executions_of (rt.sleep d w) ≡ executions_of w
    pub waits : (t : Time) (w : World U) → executions_of (rt.sleep_until t w) ≡ executions_of w

  parts-keep :
      (quiet : SleepKeeps) (handler : String → Obj → Exec (World U) Obj)
      → ((name : String) (input : Obj) → Keeps executions_of (handler name input))
      → PartsKeep executions_of rt (local_executor handler)
  unfolding mark_running complete_state fail_state get_state_output
  parts-keep quiet handler h = record {
    writes_ahead = λ r. record { same = λ w. write_ahead-executions w.clock r w.memory };
    marks = λ id name. record { same = λ w. update_found-executions _ _ _ w.memory };
    completes = λ id name output. record { same = λ w. update_found-executions _ _ _ w.memory };
    fails = λ id name msg. record { same = λ w. update_found-executions _ _ _ w.memory };
    reads = λ id name. record { same = λ w. refl };
    handles = h;
    dispatches = λ d e id name target input. cc;
    reports = λ id name from to msg w. refl;
    notifies = λ id name from to msg w. refl;
    logs = λ id name line w. refl;
    sleeps = quiet.sleeps;
    waits = quiet.waits;
  }

pub found-updated :
    (now : Time) (id : String) (status : Status) (m : MemoryStore) (r : ExecutionRecord)
    → lookup id m.executions ≡ some r
    → update_execution now id status m ≡ (
      ok tt,
      record m {
        executions = insert id (record r { status = status; updated_at = now }) m.executions;
      },
    )
unfolding update_execution
found-updated now id status m r h = rw (h, update_execution) refl

pub fresh-created :
    (now : Time) (r : ExecutionRecord) (m : MemoryStore)
    → lookup r.id m.executions ≡ none
    → create_execution now r m ≡ (
      ok tt,
      record m {
        executions =
            insert r.id
              (record r { status = pending; created_at = now; updated_at = now })
              m.executions;
      },
    )
unfolding create_execution
fresh-created now r m h = rw (h, create_execution) refl

-- the outcome that the status of the record tells
abbrev pub Tells : {A : Type 0} → Result A → Option Status → Type 0
Tells (ok _) s = s ≡ some completed
Tells (err _) s = s ≡ some failed
Tells _ s = s ≡ some running

module _ {U : Type 0} (exec_id : String) where
  -- the end of RunLocal, after the run came to an end
  abbrev conclude : Result (Unit {0}) → Exec (World U) (Unit {0})
  conclude r =
      branch (of_result r) (λ _. set_final exec_id completed)
        (λ failure. do set_final exec_id failed; raise failure)

  conclude-Tells :
      (r : Result (Unit {0})) (w : World U) (row : ExecutionRecord)
      → lookup exec_id w.memory.executions ≡ some row
      → row.status ≡ running
      → Tells (conclude r w).0 (status_of (lookup exec_id (conclude r w).1.memory.executions))
  unfolding branch pure
  conclude-Tells (ok tt) w row found is_running =
      rw (found-updated w.clock exec_id completed w.memory row found)
        (ap status_of (lookup-insert_self exec_id _ w.memory.executions))
  conclude-Tells (err e) w row found is_running =
      rw (found-updated w.clock exec_id failed w.memory row found)
        (ap status_of (lookup-insert_self exec_id _ w.memory.executions))
  conclude-Tells Result.panics w row found is_running = ap status_of found ∙ ap some is_running
  conclude-Tells Result.running w row found is_running = ap status_of found ∙ ap some is_running

-- A local run of a workflow that `Build` accepts, under an id that is not in use, with handlers and
-- sleeps that leave the execution records alone, leaves a record that tells the outcome: Completed
-- after nil, Failed after an error, and Running after a panic or where the fuel ended.
pub run_local-Tells :
    {U : Type 0} (rt : Runtime (World U)) (quiet : SleepKeeps rt) (depth fuel : ℕ)
    (exec_id : String) (w : Workflow (World U)) (g : Graph (World U)) (input : Obj) (v : World U)
    → build w ≡ ok g
    → ((name : String) (inp : Obj) → Keeps executions_of (inline_handler w name inp))
    → lookup exec_id v.memory.executions ≡ none
    → let (r, v') = run_local rt depth fuel exec_id w input v in
      Tells r (status_of (lookup exec_id v'.memory.executions))
unfolding run_local branch
run_local-Tells rt quiet depth fuel exec_id w g input v built keep fresh =
    let row0 = new_execution exec_id w.name input in
    let row1 = record row0 { status = pending; created_at = v.clock; updated_at = v.clock } in
    let m1 = record v.memory { executions = insert exec_id row1 v.memory.executions } in
    let row2 = record row1 { status = running; updated_at = v.clock } in
    let m2 = record m1 { executions = insert exec_id row2 m1.executions } in
    let v2 = record v { memory = m2 } in
    let engine = run rt (local_executor (inline_handler w)) exec_id depth fuel g input in
    let ran = engine v2 in
    let unchanged =
      (run-Keeps rt (local_executor (inline_handler w))
          (parts-keep rt quiet (inline_handler w) keep) exec_id depth fuel g input).same
        v2 in
    let kept = ap (lookup exec_id) unchanged ∙ lookup-insert_self exec_id row2 m1.executions in
    rw
      (
        built,
        fresh-created v.clock row0 v.memory fresh,
        found-updated v.clock exec_id running m1 row1
            (lookup-insert_self exec_id row1 v.memory.executions),
      )
      (conclude-Tells exec_id (ran).0 (ran).1 row2 kept refl)
