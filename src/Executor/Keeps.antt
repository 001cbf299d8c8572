-- ===== src/Executor/Keeps.antt =====
-- What the parts of an executor leave alone, an execution leaves alone.
use state_graph.Prelude.{String, ℕ, zero, suc, ℤ, ◌≡◌, refl, Option, none, some}
use state_graph.Values.{Obj, Error, Status}
use state_graph.Exec.{Exec}
use state_graph.Exec.Keeps.{
  Keeps, Keeps-pure, Keeps-raise, Keeps-fuel, Keeps-result, Keeps-inspect, Keeps-if, Keeps-act,
  Keeps-branch, Keeps-then,
}
use state_graph.Graph.{Node, Graph, node, entry_node}
use state_graph.Store.{Time, StateRecord}
use state_graph.Executor.{
  Executor, Runtime, LogLine, log_line, record_transition, prepare_retry, retry_loop, apply_retry,
  dispatch_or_retry, work, finish, give_up, start, recall, catch_with, unless_cancelled, fail_run,
  execute_state, run_from, run,
}

-- every call that an executor makes keeps the part
pub record PartsKeep {W P : Type 0} (part : W → P) (rt : Runtime W) (e : Executor W) : Type 0 where
  pub writes_ahead : (r : StateRecord) → Keeps part (e.store.write_ahead_state r)
  pub marks : (id name : String) → Keeps part (e.store.mark_running id name)
  pub completes :
      (id name : String) (output : Obj) → Keeps part (e.store.complete_state id name output)
  pub fails : (id name msg : String) → Keeps part (e.store.fail_state id name msg)
  pub reads : (id name : String) → Keeps part (e.store.get_state_output id name)
  pub handles : (name : String) (input : Obj) → Keeps part (e.handler name input)
  pub dispatches :
      (d : String → String → String → Obj → Exec W Obj)
      → e.dispatcher ≡ some d
      → (id name target : String) (input : Obj) → Keeps part (d id name target input)
  pub reports :
      (id name : String) (from to : Status) (msg : String) (w : W)
      → part (e.telemetry id name from to msg w) ≡ part w
  pub notifies :
      (id name : String) (from to : Status) (msg : String) (w : W)
      → part (e.notify id name from to msg w) ≡ part w
  pub logs :
      (id name : String) (line : LogLine) (w : W) → part (e.log_writer id name line w) ≡ part w
  pub sleeps : (d : ℤ) (w : W) → part (rt.sleep d w) ≡ part w
  pub waits : (t : Time) (w : W) → part (rt.sleep_until t w) ≡ part w

module _ {W P : Type 0} {part : W → P} (rt : Runtime W) (e : Executor W)
    (keep : PartsKeep part rt e) (exec_id : String) where
  log_line-Keeps : (n : String) (line : LogLine) → Keeps part (log_line rt e exec_id n line)
  log_line-Keeps n line = Keeps-act _ (keep.logs exec_id n line)

  transition-Keeps :
      (n : String) (from to : Status) (msg : String)
      → Keeps part (record_transition rt e exec_id n from to msg)
  transition-Keeps n from to msg =
      Keeps-then (Keeps-act _ (keep.reports exec_id n from to msg))
        (Keeps-act _ (keep.notifies exec_id n from to msg))

  prepare_retry-Keeps :
      (n : Node W) (input : Obj) (attempt : ℕ) (last : Error)
      → Keeps part (prepare_retry rt e exec_id n input attempt last)
  unfolding prepare_retry
  prepare_retry-Keeps n input attempt last = Keeps-then (log_line-Keeps n.name _) (
      Keeps-then (keep.fails _ _ _) (
        Keeps-then (transition-Keeps n.name _ _ _) (
          Keeps-then (keep.writes_ahead _) (
            Keeps-then (keep.marks _ _) (
              Keeps-then (transition-Keeps n.name _ _ _)
                (Keeps-if _ (Keeps-act _ (keep.sleeps _)) (Keeps-pure tt)))))))

  retry_loop-Keeps :
      (left : ℕ) (n : Node W) (input : Obj) (attempt : ℕ) (last : Error)
      → Keeps part (retry_loop rt e exec_id left n input attempt last)
  unfolding retry_loop
  retry_loop-Keeps zero n input attempt last = Keeps-raise last
  retry_loop-Keeps (suc left) n input attempt last =
      Keeps-then (prepare_retry-Keeps n input attempt last) (
        Keeps-branch _ _ _ (keep.handles n.name input) Keeps-pure
          (λ failure. retry_loop-Keeps left n input (suc attempt) failure))

  apply_retry-Keeps : (n : Node W) (input : Obj) → Keeps part (apply_retry rt e exec_id n input)
  unfolding apply_retry
  apply_retry-Keeps n input =
      Keeps-branch _ _ _ (keep.handles n.name input) Keeps-pure
        (λ failure. retry_loop-Keeps _ n input 2 failure)

  dispatch-Keeps :
      (d : Option (String → String → String → Obj → Exec W Obj)) (n : Node W) (input : Obj)
      → e.dispatcher ≡ d
      → Keeps part (dispatch_or_retry rt e exec_id d n input)
  dispatch-Keeps none n input h = apply_retry-Keeps n input
  dispatch-Keeps (some d) n input h =
      Keeps-if _ (keep.dispatches d h exec_id n.name _ input) (apply_retry-Keeps n input)

  work-Keeps :
      (n : Node W) (input : Obj) (resume_at : Option Time)
      → Keeps part (work rt e exec_id n input resume_at)
  unfolding work
  work-Keeps n input none = dispatch-Keeps e.dispatcher n input refl
  work-Keeps n input (some t) = Keeps-then (Keeps-act _ (keep.waits t)) (Keeps-pure _)

  start-Keeps : (n : Node W) → Keeps part (start rt e exec_id n)
  unfolding start
  start-Keeps n = Keeps-then (keep.marks _ _) (transition-Keeps n.name _ _ _)

  finish-Keeps : (n : Node W) (output : Obj) → Keeps part (finish rt e exec_id n output)
  unfolding finish
  finish-Keeps n output = Keeps-then (keep.completes _ _ output) (
      Keeps-then (transition-Keeps n.name _ _ _)
        (Keeps-then (log_line-Keeps n.name _) (Keeps-pure output)))

  give_up-Keeps : (n : Node W) (failure : Error) → Keeps part (give_up rt e exec_id n failure)
  unfolding give_up
  give_up-Keeps n failure =
      Keeps-then (log_line-Keeps n.name _)
        (Keeps-then (keep.fails _ _ _) (transition-Keeps n.name _ _ _))

  recall-Keeps : (n : Node W) (failure : Error) → Keeps part (recall rt e exec_id n failure)
  unfolding recall
  recall-Keeps n failure = Keeps-if _ (keep.reads _ _) (Keeps-raise failure)

  catch_with-Keeps :
      {A : Type 0} (c : Option (Node W)) (failure : Error) (run_catch : Node W → Exec W A)
      → ((n : Node W) → Keeps part (run_catch n))
      → Keeps part (catch_with c failure run_catch)
  catch_with-Keeps none failure run_catch h = Keeps-raise failure
  catch_with-Keeps (some n) failure run_catch h = h n

  execute_state-Keeps :
      (fuel : ℕ) (g : Graph W) (n : Node W) (input : Obj)
      → Keeps part (execute_state rt e exec_id fuel g n input)
  unfolding execute_state
  execute_state-Keeps zero g n input = Keeps-fuel
  execute_state-Keeps (suc fuel) g n input = Keeps-then (log_line-Keeps n.name _) (
      Keeps-inspect _ λ w.
        Keeps-branch _ _ _ (keep.writes_ahead _)
          (λ _. Keeps-then (start-Keeps n) (
            Keeps-branch _ _ _ (work-Keeps n input _) (finish-Keeps n) (λ failure.
              Keeps-then (give_up-Keeps n failure) (
                Keeps-if _ (Keeps-raise failure) (
                  Keeps-then (log_line-Keeps n.name _) (
                    catch_with-Keeps (node g n.catch) failure _
                      (λ c. execute_state-Keeps fuel g c _)))))))
          (recall-Keeps n))

  fail_run-Keeps :
      {A : Type 0} (failure : Error) → Keeps part (fail_run rt e exec_id {A = A} failure)
  fail_run-Keeps failure = Keeps-then (log_line-Keeps "" _) (Keeps-raise failure)

  unless_cancelled-Keeps :
      {A : Type 0} (c : Option Error) (m : Exec W A)
      → Keeps part m
      → Keeps part (unless_cancelled c m)
  unless_cancelled-Keeps none m h = h
  unless_cancelled-Keeps (some failure) m h = Keeps-raise failure

  run_from-Keeps :
      (depth fuel : ℕ) (g : Graph W) (n : Option (Node W)) (input : Obj)
      → Keeps part (run_from rt e exec_id depth fuel g n input)
  unfolding run_from
  run_from-Keeps depth fuel g none input = log_line-Keeps "" _
  run_from-Keeps depth zero g (some n) input = Keeps-fuel
  run_from-Keeps depth (suc fuel) g (some n) input = Keeps-inspect _ λ w.
      unless_cancelled-Keeps (rt.cancelled w) _ (
        Keeps-branch _ _ _ (execute_state-Keeps depth g n input)
          (λ output.
            Keeps-branch _ _ _ (Keeps-result _) (λ n'. run_from-Keeps depth fuel g n' output)
              (λ failure. fail_run-Keeps failure))
          (λ failure. fail_run-Keeps failure))

  pub run-Keeps :
      (depth fuel : ℕ) (g : Graph W) (input : Obj)
      → Keeps part (run rt e exec_id depth fuel g input)
  unfolding run
  run-Keeps depth fuel g input =
      Keeps-then (log_line-Keeps "" _) (run_from-Keeps depth fuel g (entry_node g) input)
