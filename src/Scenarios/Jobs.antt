-- ===== src/Scenarios/Jobs.antt =====
-- A job that pays, with the runner's server of the callbacks' scenario at the other end.
use state_graph.Prelude.{
  String, ℕ, pos, false, ◌==◌, ◌≡◌, refl, ◌≢◌, some, none, [], ◌∷◌, if◌then◌else◌,
}
use state_graph.Dict.{lookup}
use state_graph.Values.{Obj, Status, str}
use state_graph.Exec.{ok, branch, pure}
use state_graph.Workflow.{Workflow, TaskDef, HandlerFunc, StateKind}
use state_graph.Store.Memory as Memory
use state_graph.Store.Memory.{state_key}
use state_graph.Store.Memory.Services.{World, memory_store}
use state_graph.Callback.{get_input, validate_token}
use state_graph.Callback.Token.{validate_state_token, split_dot}
use state_graph.Scenarios.Callbacks.{server, world, pay_payload, pay_row, accepted}
use state_graph.Orchestrator.Modes.{Binary, main, main-forgets}
use state_graph.Worker.{Process, worker_flag_value, dispatch_worker}
use state_graph.Worker.Reports.{direct, dispatch_worker-completes}

abbrev order : Obj
order = ("order", str "o7") ∷ []

abbrev receipt : Obj
receipt = ("receipt", str "r1") ∷ []

-- counts the payments
abbrev pay : HandlerFunc (World ℕ)
pay input w = (ok receipt, record w { user = 1 })

abbrev pay_task : TaskDef (World ℕ)
pay_task = record {
  name = "pay";
  fn = some pay;
  choice_fn = none;
  service_target = "";
  retry = none;
  catch = "";
  kind = StateKind.task_state;
  wait_dur = pos 0;
}

abbrev billing : Workflow (World ℕ)
billing = record {
  name = "billing";
  image = "";
  tasks = ("pay", pay_task) ∷ [];
  steps = [];
  names = "pay" ∷ [];
}

abbrev job : Process (World ℕ)
job = record {
  args = "--quiet" ∷ "--state" ∷ "pay" ∷ [];
  grpc_endpoint = "";
  new_client = λ endpoint. ok (direct server);
  new_struct = λ output. ok output;
  error_text = λ failure. "failed";
  quote = λ name. name;
}

abbrev ready : World ℕ
ready = record world {
  memory = record world.memory {
    executions =
        (
          "e1",
          record {
            id = "e1";
            workflow = "billing";
            status = Status.running;
            input = some order;
            created_at = 0;
            updated_at = 0;
          },
        )
        ∷ [];
  };
}

answered : get_input server "payload.signed" ready ≡ (ok order, ready)
unfolding get_input validate_token branch validate_state_token split_dot Memory.get_execution
    Memory.list_states lookup
answered = refl

paid-found : lookup (state_key "e1" "pay") ready.memory.states ≡ some pay_row
unfolding lookup state_key
paid-found = refl

named : (worker_flag_value "state" job.args == "") ≡ false
unfolding worker_flag_value
named = refl

task-found : lookup (worker_flag_value "state" job.args) billing.tasks ≡ some pay_task
unfolding worker_flag_value lookup
task-found = refl

dispatch_worker-completes_example :
    let (code, after) = dispatch_worker job billing "payload.signed" ready in
    (code ≡ ok 0)
    × ((memory_store.get_state_output "e1" "pay" after).0 ≡ ok receipt)
    × ((key : String)
        → state_key "e1" "pay" ≢ key
        → lookup key after.memory.states ≡ lookup key ready.memory.states)
dispatch_worker-completes_example =
    dispatch_worker-completes job server billing "payload.signed" pay_task pay order receipt receipt
      ready ready (record ready { user = 1 }) pay_payload pay_row refl named refl task-found refl
      answered refl refl accepted paid-found

-- the control plane's binary as the image of a job
abbrev variables : String → String
variables name =
    if name == "KFLOW_STATE_TOKEN"
    then "payload.signed"
    else if name == "KFLOW_GRPC_ENDPOINT"
    then "runner:9090"
    else "e1"

abbrev binary : Binary (World ℕ)
binary = record {
  getenv = variables;
  new_client = λ endpoint. ok (direct server);
  listen_and_serve = λ name address. pure tt;
}

main-forgets_example :
    let (code, after) = main binary "pay" "" (pure 0) ready in
    (code ≡ ok 0) × ((memory_store.get_state_output "e1" "pay" after).0 ≡ ok [])
main-forgets_example =
    main-forgets binary server "pay" "" (pure 0) order ready ready pay_payload pay_row refl refl
      refl refl refl refl answered accepted paid-found
