-- ===== src/Executor/Trace.antt =====
-- The calls of an executor on its store and its handlers, recorded: the same executor over a world
-- that also keeps the list of the calls, newest first.
use state_graph.Prelude.{String, Bool, true, false, ◌==◌, Option, none, some, List, [], ◌∷◌}
use state_graph.Values.{Obj}
use state_graph.Exec.{Result, ok, Exec}
use state_graph.Store.{Store}
use state_graph.Executor.{Executor, Runtime}

-- A store call is an event if it returned nil; a handler or a dispatcher is one when it is called.
pub data Event : Type 0 where
  wrote_ahead marked_running invoked completed_state failed_state : String → Event

abbrev pub Trace : Type 0
Trace = List Event

abbrev pub add_if_ok : {A : Type 0} → Result A → Event → Trace → Trace
add_if_ok (ok _) ev t = ev ∷ t
add_if_ok _ ev t = t

module _ {W : Type 0} where
  unfoldable pub lifted : {A : Type 0} → Exec W A → Exec (W × Trace) A
  lifted m (w, t) = let (r, w') = m w in (r, (w', t))

  unfoldable pub noted : {A : Type 0} → Event → Exec W A → Exec (W × Trace) A
  noted ev m (w, t) = let (r, w') = m w in (r, (w', add_if_ok r ev t))

  unfoldable pub announced : {A : Type 0} → Event → Exec W A → Exec (W × Trace) A
  announced ev m (w, t) = let (r, w') = m w in (r, (w', ev ∷ t))

  unfoldable pub on_world : (W → W) → W × Trace → W × Trace
  on_world f (w, t) = (f w, t)

  abbrev pub traced_store : Store W → Store (W × Trace)
  traced_store st = record {
    create_execution = λ r. lifted (st.create_execution r);
    get_execution = λ id. lifted (st.get_execution id);
    update_execution = λ id status. lifted (st.update_execution id status);
    list_executions = λ f. lifted (st.list_executions f);
    write_ahead_state = λ r. noted (wrote_ahead r.state_name) (st.write_ahead_state r);
    mark_running = λ id name. noted (marked_running name) (st.mark_running id name);
    complete_state =
        λ id name output. noted (completed_state name) (st.complete_state id name output);
    fail_state = λ id name msg. noted (failed_state name) (st.fail_state id name msg);
    get_state_output = λ id name. lifted (st.get_state_output id name);
    list_states = λ id. lifted (st.list_states id);
    create_service = λ r. lifted (st.create_service r);
    get_service = λ name. lifted (st.get_service name);
    list_services = lifted st.list_services;
    update_service_status = λ name status ip. lifted (st.update_service_status name status ip);
    delete_service = λ name. lifted (st.delete_service name);
  }

  abbrev pub traced_dispatcher :
      Option (String → String → String → Obj → Exec W Obj)
      → Option (String → String → String → Obj → Exec (W × Trace) Obj)
  traced_dispatcher none = none
  traced_dispatcher (some dispatch) =
      some (λ id name target input. announced (invoked name) (dispatch id name target input))

  abbrev pub traced : Executor W → Executor (W × Trace)
  traced e = record {
    store = traced_store e.store;
    handler = λ name input. announced (invoked name) (e.handler name input);
    dispatcher = traced_dispatcher e.dispatcher;
    telemetry = λ id name from to msg. on_world (e.telemetry id name from to msg);
    notify = λ id name from to msg. on_world (e.notify id name from to msg);
    log_writer = λ id name line. on_world (e.log_writer id name line);
  }

  abbrev pub traced_runtime : Runtime W → Runtime (W × Trace)
  traced_runtime rt = record {
    message = rt.message;
    cancelled = λ s. rt.cancelled s.0;
    time_after = λ d s. rt.time_after d s.0;
    sleep_until = λ t. on_world (rt.sleep_until t);
    sleep = λ d. on_world (rt.sleep d);
  }

-- Where an execution stands in the write-ahead protocol: between states, in a state, or after the
-- failure of one.
pub data Phase : Type 0 where
  idle : Phase
  written started working gave_up : String → Phase

abbrev move : Bool → Phase → Option Phase
move true p = some p
move false p = none

-- The protocol: a state is written ahead, marked running, invoked once, and completed, or its own
-- failure is recorded; a state that waits is completed without an invocation. The failure of a state
-- may be recorded at any point from its write-ahead on, and again, until another event.
abbrev pub advance : Phase → Event → Option Phase
advance idle (wrote_ahead n) = some (written n)
advance (gave_up _) (wrote_ahead n) = some (written n)
advance (written n) (marked_running m) = move (n == m) (started n)
advance (started n) (invoked m) = move (n == m) (working n)
advance (started n) (completed_state m) = move (n == m) idle
advance (working n) (completed_state m) = move (n == m) idle
advance (written n) (failed_state m) = move (n == m) (gave_up n)
advance (started n) (failed_state m) = move (n == m) (gave_up n)
advance (working n) (failed_state m) = move (n == m) (gave_up n)
advance (gave_up n) (failed_state m) = move (n == m) (gave_up n)
advance _ _ = none

abbrev pub advance? : Option Phase → Event → Option Phase
advance? none ev = none
advance? (some p) ev = advance p ev

-- the phase after a trace; `none` is a breach of the protocol
unfoldable pub phase_of : Trace → Option Phase
phase_of [] = some idle
phase_of (ev ∷ t) = advance? (phase_of t) ev
