-- ===== src/Orchestrator/Outcome.antt =====
-- The status that a triggered execution ends with.
use state_graph.Prelude.{
  String, ℕ, ℤ, ◌≡◌, refl, ap, subst, some-injective, ◌∙◌, Option, none, some,
}
use state_graph.Dict.{lookup, lookup-insert_self}
use state_graph.Values.{Obj, Status, completed, failed}
use state_graph.Exec.{Result, ok, err, Exec, pure, raise, of_result, branch}
use state_graph.Exec.Keeps.{Keeps, Keeps-result, Keeps-branch, Keeps-raise, Keeps-pure, Keeps-if}
use state_graph.Graph.{WorkflowGraph, Graph, build_from_proto}
use state_graph.Store.{Time, ExecutionRecord}
use state_graph.Store.Memory.{mark_running, complete_state, fail_state, get_state_output}
use state_graph.Store.Memory.Services.{World, memory_store}
use state_graph.InProcess.Outcome.{
  executions_of, status_of, update_found-executions, write_ahead-executions, found-updated,
}
use state_graph.Executor.{LogLine}
use state_graph.Executor.Keeps.{PartsKeep, run-Keeps}
use state_graph.Kubernetes.Jobs.{Cluster, handle, executor, run_on_cluster}
use state_graph.Api.Events.{WsEvent}
use state_graph.Orchestrator.{
  ControlPlane, on_cluster, in_process, pass_through, run_with, settle, trigger,
}

-- building the graph and running it, whose outcome the status is to tell
abbrev pub ran :
    {W : Type 0} → ControlPlane W → ℕ → ℕ → String → WorkflowGraph → Obj → Exec W (Unit {0})
ran p depth fuel exec_id graph input =
    branch (of_result (build_from_proto graph))
      (λ g. run_with p p.cluster graph.image exec_id depth fuel g input) raise

-- the status after an outcome, for a record that had the status `before`
abbrev pub Settled : {A : Type 0} → Status → Result A → Option Status → Type 0
Settled before (ok _) s = s ≡ some completed
Settled before (err _) s = s ≡ some failed
Settled before _ s = s ≡ some before

module _ {U : Type 0} (p : ControlPlane (World U)) where
  -- what is not the store leaves the execution records alone
  pub record IsQuiet (exec_id : String) (image : String) : Type 0 where
    pub dispatches :
        (id name target : String) (input : Obj)
        → Keeps executions_of (p.dispatch id name target input)
    pub reports :
        (id name : String) (from to : Status) (msg : String) (w : World U)
        → executions_of (p.event_writer id name from to msg w) ≡ executions_of w
    pub logs :
        (id name : String) (line : LogLine) (w : World U)
        → executions_of (p.log_writer id name line w) ≡ executions_of w
    pub broadcasts : (e : WsEvent) (w : World U) → executions_of (p.broadcast e w) ≡ executions_of w
    pub sleeps : (d : ℤ) (w : World U) → executions_of (p.runtime.sleep d w) ≡ executions_of w
    pub waits :
        (t : Time) (w : World U) → executions_of (p.runtime.sleep_until t w) ≡ executions_of w
    pub jobs :
        (c : Cluster (World U))
        → p.cluster ≡ some c
        → (name : String) → Keeps executions_of (handle (on_cluster p c image) exec_id name)

  module _ (is_memory : p.store ≡ memory_store) {exec_id image : String}
      (quiet : IsQuiet exec_id image) where
    -- with any handler that leaves the records alone
    parts-keep :
        (handler : String → Obj → Exec (World U) Obj)
        → ((name : String) (input : Obj) → Keeps executions_of (handler name input))
        → PartsKeep executions_of p.runtime (record (in_process p) { handler = handler })
    unfolding mark_running complete_state fail_state get_state_output
    parts-keep handler h = record {
      writes_ahead =
          λ r. rw is_memory (record { same = λ w. write_ahead-executions w.clock r w.memory });
      marks =
          λ id name. rw is_memory (record { same = λ w. update_found-executions _ _ _ w.memory });
      completes = λ id name output.
          rw is_memory (record { same = λ w. update_found-executions _ _ _ w.memory });
      fails = λ id name msg.
          rw is_memory (record { same = λ w. update_found-executions _ _ _ w.memory });
      reads = λ id name. rw is_memory (record { same = λ w. refl });
      handles = h;
      dispatches = λ d e id name target input.
          subst (λ f. Keeps executions_of (f id name target input)) (some-injective e)
            (quiet.dispatches id name target input);
      reports = quiet.reports;
      notifies = λ id name from to msg w. quiet.broadcasts _ w;
      logs = quiet.logs;
      sleeps = quiet.sleeps;
      waits = quiet.waits;
    }

    run_with-Keeps :
        (o : Option (Cluster (World U))) (depth fuel : ℕ) (g : Graph (World U)) (input : Obj)
        → p.cluster ≡ o
        → Keeps executions_of (run_with p o image exec_id depth fuel g input)
    unfolding run_on_cluster pure
    run_with-Keeps none depth fuel g input h =
        run-Keeps p.runtime (in_process p) (parts-keep pass_through λ _ _. Keeps-pure _) exec_id
          depth fuel g input
    run_with-Keeps (some c) depth fuel g input h =
        Keeps-if _
          (run-Keeps p.runtime (executor (on_cluster p c image) exec_id)
            (parts-keep _ (λ name _. quiet.jobs c h name)) exec_id depth fuel g input)
          (run-Keeps p.runtime (in_process p) (parts-keep pass_through λ _ _. Keeps-pure _) exec_id
            depth fuel g input)

  -- the end of `trigger`, after the outcome
  abbrev conclude : String → Result (Unit {0}) → Exec (World U) (Unit {0})
  conclude exec_id r =
      branch (of_result r) (λ _. settle p exec_id completed) (λ _. settle p exec_id failed)

  conclude-Settled :
      (exec_id : String) (r : Result (Unit {0})) (w : World U) (row : ExecutionRecord)
      → p.store ≡ memory_store
      → lookup exec_id w.memory.executions ≡ some row
      → Settled row.status r (status_of (lookup exec_id (conclude exec_id r w).1.memory.executions))
  unfolding branch pure
  conclude-Settled exec_id (ok tt) w row is_memory found =
      rw (is_memory, found-updated w.clock exec_id completed w.memory row found)
        (ap status_of (lookup-insert_self exec_id _ w.memory.executions))
  conclude-Settled exec_id (err e) w row is_memory found =
      rw (is_memory, found-updated w.clock exec_id failed w.memory row found)
        (ap status_of (lookup-insert_self exec_id _ w.memory.executions))
  conclude-Settled exec_id Result.panics w row is_memory found = ap status_of found
  conclude-Settled exec_id Result.running w row is_memory found = ap status_of found

  -- `trigger` is: run, then settle
  trigger_lem :
      (depth fuel : ℕ) (exec_id : String) (graph : WorkflowGraph) (input : Obj) (w : World U)
      → trigger p depth fuel exec_id graph input w
        ≡ (let (r, w') = ran p depth fuel exec_id graph input w in conclude exec_id r w')
  unfolding trigger branch
  trigger_lem depth fuel exec_id graph input w = built (build_from_proto graph)
    where
      built :
          (b : Result (Graph (World U)))
          → branch
              (of_result b)
              (λ g.
                branch
                  (run_with p p.cluster graph.image exec_id depth fuel g input)
                  (λ _. settle p exec_id completed)
                  (λ _. settle p exec_id failed))
              (λ _. settle p exec_id failed)
              w
            ≡ (let (r, w') =
                  branch
                    (of_result b)
                    (λ g. run_with p p.cluster graph.image exec_id depth fuel g input)
                    raise
                    w in
                conclude exec_id r w')
      built (ok g) = refl
      built (err e) = refl
      built Result.panics = refl
      built Result.running = refl

-- `trigger` on the memory store, for an execution that has a record, with all but the store leaving
-- the execution records alone, marks the execution Completed if the graph can be built and the run
-- returns nil, and Failed if one of them returns an error; after a panic, or where the fuel ended, the
-- record has the status that it had.
pub trigger-Settled :
    {U : Type 0} (p : ControlPlane (World U)) (depth fuel : ℕ) (exec_id : String)
    (graph : WorkflowGraph) (input : Obj) (w : World U) (row : ExecutionRecord)
    → p.store ≡ memory_store
    → IsQuiet p exec_id graph.image
    → lookup exec_id w.memory.executions ≡ some row
    → Settled row.status (ran p depth fuel exec_id graph input w).0 (
        status_of (lookup exec_id (trigger p depth fuel exec_id graph input w).1.memory.executions))
trigger-Settled p depth fuel exec_id graph input w row is_memory quiet found =
    let kept =
      Keeps-branch _ _ _ (Keeps-result (build_from_proto graph))
        (λ g. run_with-Keeps p is_memory quiet p.cluster depth fuel g input refl) Keeps-raise in
    rw (trigger_lem p depth fuel exec_id graph input w)
      (conclude-Settled p exec_id _ _ row is_memory (ap (lookup exec_id) (kept.same w) ∙ found))
