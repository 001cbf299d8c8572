-- ===== src/Callback.antt =====
-- internal/runner/server.go: the calls that a job's container makes back, for the state its token names.
pub mod Token
pub mod Tokens
pub mod Calls
use state_graph.Prelude.{
  String, ℕ, Bool, true, false, ◌==◌, Option, none, some, List, [], ◌∷◌, if◌then◌else◌,
}
use state_graph.Values.{
  Obj, Error, execution_not_found, missing_token, rejected_token, not_found, internal,
}
use state_graph.Exec.{Result, ok, err, Exec, pure, raise, inspect, of_result, branch, ◌>>=◌, ◌>>◌}
use state_graph.Store.{StateRecord, ExecutionRecord, Store}
use state_graph.Callback.Token.{Crypto, TokenPayload, Bytes, validate_state_token}

-- The server, and what it uses of `time` and `structpb`.
pub record Server (W : Type 0) : Type 0 where
  pub store : Store W
  pub secret : Bytes
  pub crypto : Crypto
  pub unix_now : W → ℕ
  pub new_struct : Obj → Result Obj

abbrev pub is_execution_not_found : Error → Bool
is_execution_not_found execution_not_found = true
is_execution_not_found _ = false

-- the input of the first record of the state, if it is there and not nil
abbrev pub state_input : String → List StateRecord → Option Obj
state_input name [] = none
state_input name (r ∷ rs) = if r.state_name == name then r.input else state_input name rs

abbrev pub input_or : Option Obj → Option Obj → Obj
input_or (some input) _ = input
input_or none (some input) = input
input_or none none = []

-- an output that is not sent is a nil map
abbrev pub output_or_nil : Option Obj → Obj
output_or_nil none = []
output_or_nil (some output) = output

module _ {W : Type 0} (s : Server W) where
  unfoldable pub validate_token : String → Exec W TokenPayload
  validate_token token =
      if token == ""
      then raise missing_token
      else inspect λ w.
        branch (of_result (validate_state_token s.crypto (s.unix_now w) token s.secret)) pure
          (λ _. raise rejected_token)

  unfoldable pub get_input : String → Exec W Obj
  unfolding validate_token
  get_input token = do
    payload ← validate_token token
    rec ← branch (s.store.get_execution payload.exec_id) pure (λ failure.
        if is_execution_not_found failure
        then raise (not_found payload.exec_id)
        else raise (internal failure))
    own ←
        branch (s.store.list_states payload.exec_id)
          (λ states. pure (state_input payload.state states)) (λ _. pure none)
    branch (of_result (s.new_struct (input_or own rec.input))) pure
        (λ failure. raise (internal failure))

  unfoldable pub complete_state : String → Option Obj → Exec W (Unit {0})
  unfolding validate_token
  complete_state token output = do
    payload ← validate_token token
    branch (s.store.complete_state payload.exec_id payload.state (output_or_nil output)) pure
        (λ failure. raise (internal failure))

  unfoldable pub fail_state : String → String → Exec W (Unit {0})
  unfolding validate_token
  fail_state token message = do
    payload ← validate_token token
    branch (s.store.fail_state payload.exec_id payload.state message) pure
        (λ failure. raise (internal failure))
