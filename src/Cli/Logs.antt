-- ===== src/Cli/Logs.antt =====
-- cmd/kflow/logs.go: the log command.
use Prim.Native.String.{◌++◌ as ◌<>◌}
use state_graph.Prelude.{
  String, ℕ, zero, suc, ◌==◌, not, ◌&&◌, Bool, Option, none, some, List, [], ◌∷◌, ◌++◌,
  if◌then◌else◌,
}
use state_graph.Values.{Error, external}
use state_graph.Exec.{
  Result, Exec, pure, raise, out_of_fuel, inspect, of_result, act, branch, ◌>>=◌, ◌>>◌,
}
use state_graph.Kubernetes.{cut}
use state_graph.Cli.{
  Json, array, object, Items, end, item, Fields, none_left, get, as_text, Machine, do_json,
  resolve_bearer,
}

-- A connection's messages until its reading fails, as the type and the payload they encode; a message
-- that does not is `none`.
pub record Messages : Type 0 where
  pub read : List (Option (String × Option Fields))
  pub failure : Error

-- What the code uses of `fmt`, `net/url`, `time` and the web socket: escaping, the parameters in their
-- encoding, the address of a web socket for the server, printing a line, a dial, and two seconds of
-- sleep.
pub record Terminal (W : Type 0) : Type 0 where
  pub number : ℕ → String
  pub escape : String → String
  pub encode : List (String × String) → String
  pub ws_url : String → String → Result String
  pub dial : String → Exec W Messages
  pub print_line : String → String → String → String → W → W
  pub print_end : W → W
  pub format_time : String → String
  pub sleep : W → W

abbrev pub given : String → String → List (String × String)
given name value = if value == "" then [] else (name, value) ∷ []

abbrev pub filters : String → String → String → String → List (String × String)
filters exec_id service level since =
    given "execution_id" exec_id
    ++ (given "service_name" service ++ (given "level" level ++ given "since" since))

abbrev pub fields_of : Option Json → Fields
fields_of (some (object fields)) = fields
fields_of _ = none_left

abbrev pub items_of : Option Json → Items
items_of (some (array items)) = items
items_of _ = end

-- the column of printLogLine that says where a line comes from
unfoldable pub log_source : String → String → String
unfolding cut
log_source exec_id state =
    let short = cut 8 exec_id in
    if not (state == "") && not (short == "")
    then short <> ("/" <> state)
    else if not (state == "")
    then state
    else short

module _ {W : Type 0} (m : Machine W) (t : Terminal W) where
  abbrev pub print_log_line : Fields → Exec W (Unit {0})
  print_log_line row = act (
      t.print_line (t.format_time (as_text (get "occurred_at" row))) (as_text (get "level" row))
        (log_source (as_text (get "execution_id" row)) (as_text (get "state_name" row)))
        (as_text (get "message" row)))

  unfoldable pub print_rows : Items → Exec W (Unit {0})
  print_rows end = pure tt
  print_rows (item row rest) = do print_log_line (fields_of (some row)); print_rows rest

  unfoldable pub query_logs_once : String → String → String → String → ℕ → Exec W (Unit {0})
  unfolding print_rows do_json
  query_logs_once exec_id service level since limit = do
    let params = filters exec_id service level since ++ (("limit", t.number limit) ∷ [])
    result ← do_json m "GET" ("/api/v1/logs?" <> t.encode params) none
    print_rows (items_of (get "logs" result))

  abbrev pub show_payload : Option Fields → Exec W (Unit {0})
  show_payload none = pure tt
  show_payload (some row) = print_log_line row

  abbrev pub show : Option (String × Option Fields) → Exec W (Unit {0})
  show none = pure tt
  show (some (type, payload)) =
      if type == "log_entry"
      then show_payload payload
      else if type == "logs_end"
      then act t.print_end
      else pure tt

  -- the loop of streamLogs, which ends when a read fails
  unfoldable pub stream_messages :
      List (Option (String × Option Fields)) → Error → Exec W (Unit {0})
  stream_messages [] failure = raise failure
  stream_messages (message ∷ rest) failure = do show message; stream_messages rest failure

  abbrev pub stream_logs : Messages → Exec W (Unit {0})
  stream_logs conn = stream_messages conn.read conn.failure

  -- the loop of followLogs
  unfoldable pub follow_loop : ℕ → String → Exec W (Unit {0})
  unfolding stream_messages
  follow_loop zero url = out_of_fuel
  follow_loop (suc fuel) url =
      let again = follow_loop fuel url in
      branch (t.dial url) (λ conn. branch (stream_logs conn) pure (λ _. do act t.sleep; again))
        (λ _. do act t.sleep; again)

  unfoldable pub follow_logs : ℕ → String → String → String → String → Exec W (Unit {0})
  unfolding follow_loop
  follow_logs fuel exec_id service level since = do
    base ← of_result (t.ws_url m.server_flag "/api/v1/ws/logs")
    inspect λ w.
        let params =
          t.encode (filters exec_id service level since ++ given "token" (resolve_bearer m w)) in
        follow_loop fuel (if params == "" then base else base <> ("?" <> params))

  abbrev pub first_id : String → Items → Exec W String
  first_id workflow end = raise (external "no executions found for workflow")
  first_id workflow (item first _) =
      let id = as_text (get "id" (fields_of (some first))) in
      if id == "" then raise (external "execution record has no id field") else pure id

  unfoldable pub latest_execution_id : String → Exec W String
  unfolding do_json
  latest_execution_id workflow = do
    result ←
        do_json m "GET" ("/api/v1/executions?workflow=" <> (t.escape workflow <> "&limit=1")) none
    first_id workflow (items_of (get "executions" result))

  unfoldable pub run_logs :
      ℕ → Bool → String → String → String → String → String → ℕ → Exec W (Unit {0})
  unfolding follow_logs query_logs_once latest_execution_id
  run_logs fuel follow exec_id service workflow level since limit = do
    id ←
        (if exec_id == "" && not (workflow == "")
          then latest_execution_id workflow
          else pure exec_id)
    if follow
        then follow_logs fuel id service level since
        else query_logs_once id service level since limit
