-- ===== src/Orchestrator/Modes.antt =====
-- cmd/orchestrator/main.go: the flags, and the modes of the binary that run inside a job.
use Prim.Native.String.{◌++◌ as ◌<>◌}
use state_graph.Prelude.{
  String, ℕ, ◌==◌, not, ◌&&◌, ◌≡◌, refl, ap, none, some, [], false, if◌then◌else◌,
}
use state_graph.Dict.{lookup}
use state_graph.Values.{Obj}
use state_graph.Exec.{Result, ok, Exec, pure, raise, of_result, branch, branch-ok}
use state_graph.Store.{StateRecord}
use state_graph.Store.Memory.{state_key}
use state_graph.Store.Memory.Services.{World, memory_store}
use state_graph.Callback.Token.{TokenPayload, validate_state_token}
use state_graph.Callback.{Server, get_input, complete_state}
use state_graph.Callback.Calls.{complete_state-completes}
use state_graph.Worker.{RunnerClient}
use state_graph.Worker.Reports.{direct}

-- The environment of the process, a client of the RunnerService at an address, and a gRPC server for a
-- service at an address, until it stops. An exit code is what a mode ends with; log.Fatalf exits
-- with 1.
pub record Binary (W : Type 0) : Type 0 where
  pub getenv : String → String
  pub new_client : String → Result (RunnerClient W)
  pub listen_and_serve : String → String → Exec W (Unit {0})

abbrev pub or_else : String → String → String
or_else value other = if value == "" then other else value

module _ {W : Type 0} (b : Binary W) where
  -- requireEnv, which exits with 1
  abbrev pub require_env : String → (String → Exec W ℕ) → Exec W ℕ
  require_env name next = if b.getenv name == "" then pure 1 else next (b.getenv name)

  -- GetInput, then CompleteState without an output
  unfoldable pub complete_without_output : String → String → Exec W ℕ
  complete_without_output endpoint token =
      branch (of_result (b.new_client endpoint))
        (λ client.
          branch (client.get_input token)
            (λ payload. branch (client.complete_state token none) (λ _. pure 0) (λ _. pure 1))
            (λ _. pure 1))
        (λ _. pure 1)

  unfoldable pub run_state_mode : Exec W ℕ
  unfolding complete_without_output
  run_state_mode = require_env "KFLOW_EXECUTION_ID" λ exec_id.
      require_env "KFLOW_STATE_TOKEN" λ token.
        require_env "KFLOW_GRPC_ENDPOINT" λ endpoint. complete_without_output endpoint token

  unfoldable pub run_service_mode : String → Exec W ℕ
  unfolding complete_without_output
  run_service_mode service =
      let endpoint = b.getenv "KFLOW_GRPC_ENDPOINT" in
      let token = b.getenv "KFLOW_STATE_TOKEN" in
      if not (token == "") && not (endpoint == "")
      then complete_without_output endpoint token
      else branch
          (b.listen_and_serve service (":" <> or_else (b.getenv "KFLOW_SERVICE_GRPC_PORT") "9091"))
          (λ _. pure 0) (λ _. pure 1)

  -- `server_mode` is runServerMode
  unfoldable pub main : String → String → Exec W ℕ → Exec W ℕ
  unfolding run_state_mode run_service_mode
  main state service server_mode =
      if not (state == "")
      then run_state_mode
      else if not (service == "")
      then run_service_mode service
      else server_mode

  -- serviceRunnerServer.Invoke
  abbrev pub invoke : Obj → Exec W Obj
  invoke payload = pure payload

-- A job in state mode, with its three variables set, whose input the server answers, exits with 0, if
-- the server accepts its token and has a record of the state on the memory store: the state is then
-- completed with an empty output, whatever its input was.
pub main-forgets :
    {U : Type 0} (b : Binary (World U)) (s : Server (World U)) (state service : String)
    (server_mode : Exec (World U) ℕ) (input : Obj) (w w' : World U) (q : TokenPayload)
    (r : StateRecord)
    → s.store ≡ memory_store
    → (state == "") ≡ false
    → (b.getenv "KFLOW_EXECUTION_ID" == "") ≡ false
    → (b.getenv "KFLOW_STATE_TOKEN" == "") ≡ false
    → (b.getenv "KFLOW_GRPC_ENDPOINT" == "") ≡ false
    → b.new_client (b.getenv "KFLOW_GRPC_ENDPOINT") ≡ ok (direct s)
    → get_input s (b.getenv "KFLOW_STATE_TOKEN") w ≡ (ok input, w')
    → validate_state_token s.crypto (s.unix_now w') (b.getenv "KFLOW_STATE_TOKEN") s.secret ≡ ok q
    → lookup (state_key q.exec_id q.state) w'.memory.states ≡ some r
    → let (code, after) = main b state service server_mode w in
      (code ≡ ok 0) × ((memory_store.get_state_output q.exec_id q.state after).0 ≡ ok [])
unfolding main branch pure
main-forgets b s state service server_mode input w w' q r is_memory asked id token_set endpoint_set
      dialled got accepted row =
    let token = b.getenv "KFLOW_STATE_TOKEN" in
    let done = complete_state-completes s token w' q r none is_memory accepted row in
    let after = (complete_state s token none w').1 in
    let sent : complete_state s token none w' ≡ (ok tt, after) = ap (λ x. (x, after)) done.0 in
    let payload = branch-ok (get_input s token) (λ i. pure (some i)) raise w got in
    rw (asked, id, token_set, endpoint_set, dialled, payload, sent) (refl, done.1)
