-- ===== src/Executor.antt =====
-- internal/engine/executor.go. `Run` and `executeState` may go on for ever (a cycle of states, a cycle
-- of catches), so they take fuel. Maps are values here, so `cloneInput` is the identity.
pub mod Trace
pub mod Triple
pub mod Protocol
pub mod Replay
pub mod Completes
pub mod Catch
pub mod Keeps
pub mod Retry
use state_graph.Prelude.{
  String, ℕ, zero, suc, ℤ, pos, pos_part, scale, ◌-◌, Bool, true, false, not, ◌&&◌, ◌==◌, Option,
  none, some, [], ltb, if◌then◌else◌,
}
use state_graph.Dict.{lookup, insert}
use state_graph.Values.{
  Value, str, Obj, Status, pending, running, completed, failed, Error, state_already_terminal,
}
use state_graph.Exec.{
  Result, ok, err, Exec, pure, raise, out_of_fuel, inspect, of_result, act, branch, ◌>>=◌, ◌>>◌,
}
use state_graph.Workflow.{RetryPolicy, is_choice, is_wait}
use state_graph.Graph.{Node, Graph, node, entry_node, next}
use state_graph.Store.{Time, StateRecord, Store}

-- the lines that `logLine` writes, without their wording
pub data LogLine : Type 0 where
  execution_started execution_completed state_starting state_completed : LogLine
  execution_failed state_failed : Error → LogLine
  state_retry : ℕ → ℕ → LogLine
  state_catch : String → LogLine

-- The fields of `Executor`; a nil callback is one that leaves the world alone.
pub record Executor (W : Type 0) : Type 0 where
  pub store : Store W
  pub handler : String → Obj → Exec W Obj
  pub dispatcher : Option (String → String → String → Obj → Exec W Obj)
  pub telemetry : String → String → Status → Status → String → W → W
  pub notify : String → String → Status → Status → String → W → W
  pub log_writer : String → String → LogLine → W → W

-- What the code uses of the packages `context`, `errors`, `fmt` and `time`.
pub record Runtime (W : Type 0) : Type 0 where
  pub message : Error → String  -- err.Error()
  pub cancelled : W → Option Error  -- ctx.Err() if ctx.Done() is closed
  pub time_after : ℤ → W → Time  -- time.Now().Add(d)
  pub sleep_until : Time → W → W  -- time.Sleep(time.Until(t))
  pub sleep : ℤ → W → W

abbrev pub is_already_terminal : Error → Bool
is_already_terminal state_already_terminal = true
is_already_terminal _ = false

-- choiceKey, _ = v.(string)
abbrev pub string_of : Option Value → String
string_of (some (str s)) = s
string_of _ = ""

abbrev pub choice_key : {W : Type 0} → Node W → Obj → String
choice_key n output =
    if is_choice n.task_def.kind then string_of (lookup "__choice__" output) else ""

abbrev pub merge_error_key : Obj → String → Obj
merge_error_key input msg = insert "_error" (str msg) input

-- `maxAttempts` and `backoff` of applyRetry
abbrev pub max_attempts : Option RetryPolicy → ℕ
max_attempts none = 1
max_attempts (some p) = if ltb 1 (pos_part p.max_attempts) then pos_part p.max_attempts else 1

abbrev pub backoff : Option RetryPolicy → ℤ
backoff none = pos 0
backoff (some p) = scale 1000000000 p.backoff_seconds

module _ {W A : Type 0} where
  -- the catch state runs if the graph has it
  abbrev pub catch_with : Option (Node W) → Error → (Node W → Exec W A) → Exec W A
  catch_with none failure run_catch = raise failure
  catch_with (some c) failure run_catch = run_catch c

  -- select { case <-ctx.Done(): return ctx.Err() default: }
  abbrev pub unless_cancelled : Option Error → Exec W A → Exec W A
  unless_cancelled none body = body
  unless_cancelled (some failure) body = raise failure

module _ {W : Type 0} (rt : Runtime W) (e : Executor W) (exec_id : String) where
  abbrev pub log_line : String → LogLine → Exec W (Unit {0})
  log_line name line = act (e.log_writer exec_id name line)

  abbrev pub record_transition : String → Status → Status → String → Exec W (Unit {0})
  record_transition name from to msg = do
    act (e.telemetry exec_id name from to msg)
    act (e.notify exec_id name from to msg)

  abbrev pub state_record : String → Obj → ℕ → Option Time → StateRecord
  state_record name input attempt resume_at = record {
    execution_id = exec_id;
    state_name = name;
    status = pending;
    input = some input;
    output = [];
    error = "";
    attempt = attempt;
    resume_at = resume_at;
    created_at = 0;
    updated_at = 0;
  }

  -- what comes before a retry: the last attempt is marked failed, the next one is written ahead
  unfoldable pub prepare_retry : Node W → Obj → ℕ → Error → Exec W (Unit {0})
  prepare_retry n input attempt last = do
    log_line n.name (state_retry attempt (max_attempts n.retry))
    e.store.fail_state exec_id n.name (rt.message last)
    record_transition n.name running failed (rt.message last)
    e.store.write_ahead_state (state_record n.name input attempt none)
    e.store.mark_running exec_id n.name
    record_transition n.name pending running ""
    if ltb 0 (pos_part (backoff n.retry)) then act (rt.sleep (backoff n.retry)) else pure tt

  -- the loop of applyRetry from its second round, with the number of rounds left
  unfoldable pub retry_loop : ℕ → Node W → Obj → ℕ → Error → Exec W Obj
  retry_loop zero n input attempt last = raise last
  retry_loop (suc left) n input attempt last = do
    prepare_retry n input attempt last
    branch (e.handler n.name input) pure (λ err. retry_loop left n input (suc attempt) err)

  unfoldable pub apply_retry : Node W → Obj → Exec W Obj
  apply_retry n input =
      branch (e.handler n.name input) pure
        (λ err. retry_loop (max_attempts n.retry - 1) n input 2 err)

  abbrev pub dispatch_or_retry :
      Option (String → String → String → Obj → Exec W Obj) → Node W → Obj → Exec W Obj
  dispatch_or_retry none n input = apply_retry n input
  dispatch_or_retry (some dispatch) n input =
      if not (n.task_def.service_target == "")
      then dispatch exec_id n.name n.task_def.service_target input
      else apply_retry n input

  -- the three ways to run a state
  unfoldable pub work : Node W → Obj → Option Time → Exec W Obj
  work n input none = dispatch_or_retry e.dispatcher n input
  work n input (some resume_at) = do act (rt.sleep_until resume_at); pure []

  abbrev pub resume_time : Node W → W → Option Time
  resume_time n w =
      if is_wait n.task_def.kind then some (rt.time_after n.task_def.wait_dur w) else none

  unfoldable pub finish : Node W → Obj → Exec W Obj
  finish n output = do
    e.store.complete_state exec_id n.name output
    record_transition n.name running completed ""
    log_line n.name state_completed
    pure output

  unfoldable pub give_up : Node W → Error → Exec W (Unit {0})
  give_up n failure = do
    log_line n.name (state_failed failure)
    e.store.fail_state exec_id n.name (rt.message failure)
    record_transition n.name running failed (rt.message failure)

  -- WriteAheadState succeeded
  unfoldable pub start : Node W → Exec W (Unit {0})
  start n = do e.store.mark_running exec_id n.name; record_transition n.name pending running ""

  unfoldable pub recall : Node W → Error → Exec W Obj
  recall n failure =
      if is_already_terminal failure then e.store.get_state_output exec_id n.name else raise failure

  unfoldable pub execute_state : ℕ → Graph W → Node W → Obj → Exec W Obj
  unfolding work finish give_up start recall
  execute_state zero g n input = out_of_fuel
  execute_state (suc fuel) g n input = do
    log_line n.name state_starting
    inspect λ start_world.
        let resume_at = resume_time n start_world in
        branch (e.store.write_ahead_state (state_record n.name input 1 resume_at))
          (λ _. do
            start n
            branch (work n input resume_at) (finish n) (λ failure. do
              give_up n failure
              if n.catch == "" then raise failure else do
                log_line n.name (state_catch n.catch)
                catch_with (node g n.catch) failure
                    (λ c. execute_state fuel g c (merge_error_key input (rt.message failure)))))
          (recall n)

  abbrev pub fail_run : {A : Type 0} → Error → Exec W A
  fail_run failure = do log_line "" (execution_failed failure); raise failure

  -- the loop of `Run`; `depth` is the fuel of each call of executeState
  unfoldable pub run_from : ℕ → ℕ → Graph W → Option (Node W) → Obj → Exec W (Unit {0})
  run_from depth fuel g none current = log_line "" execution_completed
  run_from depth zero g (some n) current = out_of_fuel
  run_from depth (suc fuel) g (some n) current = inspect λ w. unless_cancelled (rt.cancelled w) (
      branch (execute_state depth g n current)
        (λ output.
          branch (of_result (next g n (choice_key n output)))
            (λ n'. run_from depth fuel g n' output) fail_run)
        fail_run)

  unfoldable pub run : ℕ → ℕ → Graph W → Obj → Exec W (Unit {0})
  unfolding run_from
  run depth fuel g input = do
    log_line "" execution_started
    run_from depth fuel g (entry_node g) input
