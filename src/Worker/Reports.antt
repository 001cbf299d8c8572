-- ===== src/Worker/Reports.antt =====
-- What the process of a job achieves, with the runner's server at the other end.
use state_graph.Prelude.{String, ◌≡◌, refl, ap, ◌≢◌, false, ◌==◌, Option, some}
use state_graph.Dict.{lookup}
use state_graph.Values.{Obj}
use state_graph.Exec.{ok, pure, raise, branch, branch-ok}
use state_graph.Workflow.{Workflow, TaskDef, HandlerFunc}
use state_graph.Store.{StateRecord}
use state_graph.Store.Memory.{state_key}
use state_graph.Store.Memory.Services.{World, memory_store}
use state_graph.Callback.Token.{TokenPayload, validate_state_token}
use state_graph.Callback.{Server, get_input, complete_state, fail_state}
use state_graph.Callback.Calls.{complete_state-completes}
use state_graph.Worker.{
  RunnerClient, Process, worker_flag_value, endpoint_or_default, payload_map, report_output,
  execute_task, run_state, dispatch_worker,
}

-- a client whose calls all reach the server
abbrev pub direct : {W : Type 0} → Server W → RunnerClient W
direct s = record {
  get_input = λ token. branch (get_input s token) (λ input. pure (some input)) raise;
  complete_state = complete_state s;
  fail_state = fail_state s;
}

module _ {W : Type 0} (p : Process W) where
  reports :
      (client : RunnerClient W) (token : String) (output : Obj) (s : Obj) (w w' : W)
      → p.new_struct output ≡ ok s
      → client.complete_state token (some s) w ≡ (ok tt, w')
      → report_output p client token output w ≡ (ok 0, w')
  unfolding report_output branch
  reports client token output s w w' h k = rw (h, k) refl

  -- with the workflow's task for the state that the flag names
  executes :
      (client : RunnerClient W) (wf : Workflow W) (token : String) (td : TaskDef W)
      (fn : HandlerFunc W) (payload : Option Obj) (output : Obj) (w w' w'' : W)
      → (worker_flag_value "state" p.args == "") ≡ false
      → p.new_client (endpoint_or_default p.grpc_endpoint) ≡ ok client
      → lookup (worker_flag_value "state" p.args) wf.tasks ≡ some td
      → td.fn ≡ some fn
      → client.get_input token w ≡ (ok payload, w')
      → fn (payload_map payload) w' ≡ (ok output, w'')
      → dispatch_worker p wf token w ≡ report_output p client token output w''
  unfolding dispatch_worker run_state execute_task branch
  executes client wf token td fn payload output w w' w'' named dialled found inline got returned =
      rw (named, dialled, got, found, inline, returned) refl

-- A job whose flag names a task of its workflow with a handler, whose input the server answers, and
-- whose handler returns an output, exits with 0, if the server accepts its token, and has a record of
-- the state on the memory store, when the handler is done: the store then returns the output that was
-- sent, and the records of all other keys are what the handler left.
pub dispatch_worker-completes :
    {U : Type 0} (p : Process (World U)) (s : Server (World U)) (wf : Workflow (World U))
    (token : String) (td : TaskDef (World U)) (fn : HandlerFunc (World U)) (input output sent : Obj)
    (w w' w'' : World U) (q : TokenPayload) (r : StateRecord)
    → s.store ≡ memory_store
    → (worker_flag_value "state" p.args == "") ≡ false
    → p.new_client (endpoint_or_default p.grpc_endpoint) ≡ ok (direct s)
    → lookup (worker_flag_value "state" p.args) wf.tasks ≡ some td
    → td.fn ≡ some fn
    → get_input s token w ≡ (ok input, w')
    → fn input w' ≡ (ok output, w'')
    → p.new_struct output ≡ ok sent
    → validate_state_token s.crypto (s.unix_now w'') token s.secret ≡ ok q
    → lookup (state_key q.exec_id q.state) w''.memory.states ≡ some r
    → let (code, after) = dispatch_worker p wf token w in
      (code ≡ ok 0)
      × ((memory_store.get_state_output q.exec_id q.state after).0 ≡ ok sent)
      × ((key : String)
          → state_key q.exec_id q.state ≢ key
          → lookup key after.memory.states ≡ lookup key w''.memory.states)
unfolding pure
dispatch_worker-completes p s wf token td fn input output sent w w' w'' q r is_memory named dialled
      found inline got returned struct accepted row =
    let done = complete_state-completes s token w'' q r (some sent) is_memory accepted row in
    let after = (complete_state s token (some sent) w'').1 in
    let payload = branch-ok (get_input s token) (λ i. pure (some i)) raise w got in
    rw
      (
        executes p (direct s) wf token td fn (some input) output w w' w'' named dialled found inline
            payload returned,
        reports p (direct s) token output sent w'' after struct (ap (λ x. (x, after)) done.0),
      )
      (refl, done.1, done.2)
