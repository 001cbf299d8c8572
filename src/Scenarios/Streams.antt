-- ===== src/Scenarios/Streams.antt =====
-- The streams of an execution, and a login of the command line.
use mathlib.Core.List.{reverse}
use state_graph.Prelude.{
  String, ℕ, pos, ◌≡◌, refl, true, Option, none, some, List, [], ◌∷◌, ◌++◌, map,
}
use state_graph.Values.{Status, external}
use state_graph.Exec.{ok, err, pure, raise, branch}
use state_graph.Telemetry.{LogRow, LogFilter, Connection, query_logs, clamp_limit}
use state_graph.Api.Events.{
  WsEvent, EventPayload, state_transition, service_update, log_entry, logs_end,
}
use state_graph.Api.Streams.{Signal, gone, tick, heard, stream_frames, left, row, serve_logs_ws}
use state_graph.Store.Filters.{Filters}
use state_graph.Api.Streamed.{
  events_of, audible, live_rows, IsOwn, stream_frames-IsOwn, serve_logs_ws-Shows,
}
use state_graph.Gateway.Auth.{cut_prefix}
use state_graph.Gateway.Keys.{cut_prefix-append}
use state_graph.Gateway.Mux.{Backend, serve, answer_text}
use state_graph.Cli.{Json, none_left, Machine, auth_login}
use state_graph.Cli.Login.{Delivers, received, auth_login-refused}

abbrev stamped : EventPayload → WsEvent
stamped payload = record { payload = payload; timestamp = 0 }

abbrev started : String → WsEvent
started id = stamped (
    state_transition (record {
      execution_id = id;
      state_name = "pay";
      from_status = Status.pending;
      to_status = Status.running;
      error = "";
    }))

abbrev signals : List Signal
signals =
    heard (started "e2")
    ∷ tick
    ∷ heard (started "e1")
    ∷ heard (stamped (service_update "payments" "Running"))
    ∷ gone
    ∷ heard (started "e1")
    ∷ []

stream_frames-IsOwn_example :
    Filters (IsOwn "e1") (audible signals) (events_of (stream_frames "e1" signals))
stream_frames-IsOwn_example = stream_frames-IsOwn "e1" signals

abbrev line : String → LogRow
line message = record {
  log_id = "l";
  execution_id = "e1";
  service_name = "";
  state_name = "pay";
  level = "INFO";
  message = message;
  occurred_at = 0;
}

abbrev everything : LogFilter
everything = record {
  execution_id = "e1";
  service_name = "";
  state_name = "";
  level = "";
  since = none;
  until = none;
  query = "";
  limit = pos 50;
  offset = pos 0;
}

-- the world is what the client was sent
abbrev stored : Connection (List EventPayload)
stored = record {
  count_logs = λ conditions. pure 2;
  select_logs = λ conditions limit offset. pure (line "second" ∷ line "first" ∷ []);
  select_events = λ conditions limit. pure [];
  select_metrics = λ conditions limit. pure [];
}

abbrev to_client : WsEvent → List EventPayload → List EventPayload
to_client e sent = sent ++ e.payload ∷ []

serve_logs_ws-Shows_example :
    (w' : List EventPayload) × (serve_logs_ws
        (λ w. 0)
        to_client
        none
        (some stored)
        everything
        (λ f. pure (row (line "third") ∷ left ∷ []))
        []
      ≡ (ok tt, w'))
    × (w'
        ≡ []
          ++ (map log_entry (reverse (line "second" ∷ line "first" ∷ []))
              ++ logs_end ∷ map log_entry (live_rows (row (line "third") ∷ left ∷ []))))
unfolding query_logs branch pure clamp_limit
serve_logs_ws-Shows_example =
    serve_logs_ws-Shows (λ w. 0) to_client (λ w. w) (λ e w. refl) none stored everything
      (λ f. pure (row (line "third") ∷ left ∷ [])) (line "second" ∷ line "first" ∷ []) 2
      (row (line "third") ∷ left ∷ []) [] [] refl refl (λ v. (v, refl, refl))

-- the world counts the saved tokens
abbrev services : Backend (Option Json) ℕ
services = record {
  ready = λ w. true;
  serve_ws = λ r. pure (answer_text 101 "");
  serve_logs_ws = λ r. pure (answer_text 101 "");
  gateway = λ r. pure (answer_text 404 "");
}

abbrev path_of : Option String → String
path_of none = ""
path_of (some path) = path

abbrev base : String
base = "http://localhost:8080"

abbrev machine : Machine ℕ
machine = record {
  server_flag = base;
  api_key_flag = "secret";
  getenv = λ name. "";
  read_token = λ w. none;
  write_token = λ token w. (ok tt, 1);
  remove_token = λ w. (ok tt, 0);
  marshal_error = λ body. none;
  request_error = λ url. none;
  send = λ r.
      branch
        (serve "secret" services
          (received r.method (path_of (cut_prefix base r.url)) r.authorization r.body))
        (λ a. pure (a.status, a.text)) raise;
  decode = λ s. ok none_left;
}

delivers : (body : Option Json) → Delivers machine "secret" services body
delivers body = record {
  marshals = λ sent h. refl;
  builds = refl;
  sends = λ w. rw (cut_prefix-append base "/api/v1/auth/token") refl;
}

auth_login-refused_example : auth_login machine 0 ≡ (err (external "server error"), 0)
auth_login-refused_example = auth_login-refused machine "secret" services 0 (delivers _) refl refl
