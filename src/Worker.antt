-- ===== src/Worker.antt =====
-- pkg/kflow/worker.go: the process of a job, which executes one state of its workflow and calls back.
pub mod Reports
use Prim.Native.String.{◌++◌ as ◌<>◌}
use state_graph.Prelude.{String, ℕ, ◌==◌, Option, none, some, List, [], ◌∷◌, if◌then◌else◌}
use state_graph.Dict.{lookup}
use state_graph.Values.{Obj, Error}
use state_graph.Exec.{Result, Exec, pure, of_result, branch, if_found}
use state_graph.Workflow.{Workflow, TaskDef}
use state_graph.Gateway.Auth.{cut_prefix}

-- The client of the RunnerService. GetInput may answer without a payload.
pub record RunnerClient (W : Type 0) : Type 0 where
  pub get_input : String → Exec W (Option Obj)
  pub complete_state : String → Option Obj → Exec W (Unit {0})
  pub fail_state : String → String → Exec W (Unit {0})

-- The process (os.Args[1:] and the variable KFLOW_GRPC_ENDPOINT), and what the code uses of gRPC,
-- `structpb` and `fmt`.
pub record Process (W : Type 0) : Type 0 where
  pub args : List String
  pub grpc_endpoint : String
  pub new_client : String → Result (RunnerClient W)
  pub new_struct : Obj → Result Obj
  pub error_text : Error → String
  pub quote : String → String

-- the argument after the one at hand, if there is one; else the rest is searched
abbrev pub value_after : List String → Option String
value_after [] = none
value_after (arg ∷ args) = some arg

abbrev pub first_of : Option String → Option String → String → String
first_of (some value) next rest = value
first_of none (some value) rest = value
first_of none none rest = rest

unfoldable pub worker_flag_value : String → List String → String
unfolding cut_prefix
worker_flag_value name [] = ""
worker_flag_value name (arg ∷ args) =
    first_of (cut_prefix ("--" <> name <> "=") arg)
      (if arg == "--" <> name then value_after args else none) (worker_flag_value name args)

-- resp.Payload.AsMap(), or an empty Input
abbrev pub payload_map : Option Obj → Obj
payload_map none = []
payload_map (some payload) = payload

abbrev pub endpoint_or_default : String → String
endpoint_or_default endpoint =
    if endpoint == "" then "kflow-cp.kflow.svc.cluster.local:9090" else endpoint

module _ {W : Type 0} (p : Process W) where
  -- reports the message, whatever comes of the call, and exits with 1
  unfoldable pub fail_and_exit : RunnerClient W → String → String → Exec W ℕ
  fail_and_exit client token message =
      branch (client.fail_state token message) (λ _. pure 1) (λ _. pure 1)

  -- the output of the handler
  unfoldable pub report_output : RunnerClient W → String → Obj → Exec W ℕ
  unfolding fail_and_exit
  report_output client token output =
      branch (of_result (p.new_struct output))
        (λ s. branch (client.complete_state token (some s)) (λ _. pure 0) (λ _. pure 1))
        (λ failure. fail_and_exit client token ("marshal output: " <> p.error_text failure))

  unfoldable pub execute_task : RunnerClient W → String → String → TaskDef W → Obj → Exec W ℕ
  unfolding report_output
  execute_task client token state_name td input =
      if_found td.fn
        (fail_and_exit client token ("state " <> p.quote state_name <> ": no inline handler"))
        (λ fn.
          branch (fn input) (report_output client token)
            (λ failure. fail_and_exit client token (p.error_text failure)))

  unfoldable pub run_state : RunnerClient W → Workflow W → String → String → Exec W ℕ
  unfolding execute_task
  run_state client wf token state_name =
      branch (client.get_input token)
        (λ payload.
          if_found (lookup state_name wf.tasks)
            (fail_and_exit client token ("unknown state: " <> state_name))
            (λ td. execute_task client token state_name td (payload_map payload)))
        (λ failure. fail_and_exit client token (p.error_text failure))

  -- The result is the code that the process exits with.
  unfoldable pub dispatch_worker : Workflow W → String → Exec W ℕ
  unfolding run_state worker_flag_value
  dispatch_worker wf token =
      let state_name = worker_flag_value "state" p.args in
      if state_name == ""
      then pure 1
      else branch (of_result (p.new_client (endpoint_or_default p.grpc_endpoint)))
          (λ client. run_state client wf token state_name) (λ _. pure 1)
