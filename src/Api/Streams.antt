-- ===== src/Api/Streams.antt =====
-- internal/api/sse_handler.go, the web socket of telemetry_handler.go, and that of
-- logs_ws_handler.go: the streams of events and of logs. The connection for an event is one call.
use mathlib.Core.List.{reverse}
use state_graph.Prelude.{
  String, ℤ, pos, Bool, true, false, not, leb, ◌&&◌, ◌||◌, ◌==◌, Option, none, some, List, [], ◌∷◌,
  if◌then◌else◌,
}
use state_graph.Exec.{Exec, pure, inspect, act, branch, ◌>>=◌, ◌>>◌}
use state_graph.Store.{Time, Store}
use state_graph.Kubernetes.{between}
use state_graph.Kubernetes.Names.{size}
use state_graph.Telemetry.{LogRow, LogFilter, Connection, query_logs}
use state_graph.Telemetry.Filter.{differs}
use state_graph.Api.{Response, problem, parse_int_param}
use state_graph.Api.Logs.{logs_for_filter, synthetic_logs_from_states}
use state_graph.Api.Events.{WsEvent, EventPayload, state_transition, log_entry, logs_end}

-- What a stream waits for: the end of the client, the ticker, an event, or the end of its channel.
pub data Signal : Type 0 where
  gone tick closed : Signal
  heard : WsEvent → Signal

pub data Frame : Type 0 where
  keepalive : Frame
  event : WsEvent → Frame

-- [a-zA-Z0-9_-]*
abbrev pub id_chars : String → Bool
id_chars String.[] = true
id_chars (String.◌∷◌ c s) =
    (between 97 c 122
      || (between 65 c 90 || (between 48 c 57 || (between 95 c 95 || between 45 c 45))))
    && id_chars s

-- execIDRe
unfoldable pub is_exec_id : String → Bool
is_exec_id s = leb 1 (size s) && leb (size s) 128 && id_chars s

-- a transition of this execution
abbrev pub concerns : String → EventPayload → Bool
concerns exec_id (state_transition p) = p.execution_id == exec_id
concerns exec_id _ = false

-- the loop of handleExecutionStream; a stream that hears no more waits
unfoldable pub stream_frames : String → List Signal → List Frame
stream_frames exec_id [] = []
stream_frames exec_id (gone ∷ signals) = []
stream_frames exec_id (closed ∷ signals) = []
stream_frames exec_id (tick ∷ signals) = keepalive ∷ stream_frames exec_id signals
stream_frames exec_id (heard e ∷ signals) =
    let rest = stream_frames exec_id signals in
    if concerns exec_id e.payload then event e ∷ rest else rest

pub data StreamAnswer : Type 0 where
  refused : Response → StreamAnswer
  streamed : List Frame → StreamAnswer

unfoldable pub handle_execution_stream : (can_flush : Bool) → String → List Signal → StreamAnswer
unfolding is_exec_id stream_frames
handle_execution_stream can_flush exec_id signals =
    if not (is_exec_id exec_id)
    then refused (problem 400 "invalid execution id" "bad_request")
    else if not can_flush
    then refused (problem 500 "streaming unsupported" "internal")
    else streamed (stream_frames exec_id signals)

-- the entries that a web socket of handleWSLogs asks for
abbrev pub passes : LogFilter → EventPayload → Bool
passes f (log_entry row) =
    not (differs f.execution_id row.execution_id)
    && (not (differs f.service_name row.service_name)
        && (not (differs f.state_name row.state_name) && not (differs f.level row.level)))
passes f _ = false

module _ {W : Type 0} (now : W → Time) (send : WsEvent → Exec W (Unit {0})) where
  abbrev pub at_now : EventPayload → Exec W (Unit {0})
  at_now payload = inspect λ w. send (record { payload = payload; timestamp = now w })

  -- `next` runs if the event could be sent
  abbrev pub or_stop : Exec W (Unit {0}) → Exec W (Unit {0}) → Exec W (Unit {0})
  or_stop sending next = branch sending (λ _. next) (λ _. pure tt)

  unfoldable pub send_history : List LogRow → Exec W (Unit {0}) → Exec W (Unit {0})
  send_history [] next = next
  send_history (row ∷ rows) next = or_stop (at_now (log_entry row)) (send_history rows next)

  unfoldable pub forward : LogFilter → List Signal → Exec W (Unit {0})
  forward f [] = pure tt
  forward f (gone ∷ signals) = pure tt
  forward f (closed ∷ signals) = pure tt
  forward f (tick ∷ signals) = forward f signals
  forward f (heard e ∷ signals) =
      let rest = forward f signals in if passes f e.payload then or_stop (send e) rest else rest

  -- from the upgraded connection on; `listen` subscribes, and gives what is heard
  unfoldable pub handle_ws_logs :
      Store W → Option (Connection W) → LogFilter → Exec W (List Signal) → Exec W (Unit {0})
  unfolding send_history forward
  handle_ws_logs store ch f listen =
      branch (logs_for_filter store ch f)
        (λ rows.
          send_history rows (or_stop (at_now logs_end) (do signals ← listen; forward f signals)))
        (λ _. pure tt)

-- What a subscriber of the log hub waits for: the end of the client, a row, or the end of the channel.
pub data RowSignal : Type 0 where
  left channel_closed : RowSignal
  row : LogRow → RowSignal

module _ {W : Type 0} (now : W → Time) (write : WsEvent → W → W) where
  -- writeLogEntryWS, whose errors are passed over
  abbrev pub write_log_entry : LogRow → Exec W (Unit {0})
  write_log_entry r = act (write (record { payload = log_entry r; timestamp = r.occurred_at }))

  unfoldable pub write_rows : List LogRow → Exec W (Unit {0})
  write_rows [] = pure tt
  write_rows (r ∷ rows) = do write_log_entry r; write_rows rows

  unfoldable pub write_live : List RowSignal → Exec W (Unit {0})
  write_live [] = pure tt
  write_live (left ∷ signals) = pure tt
  write_live (channel_closed ∷ signals) = pure tt
  write_live (row r ∷ signals) = do write_log_entry r; write_live signals

  abbrev pub write_end : Exec W (Unit {0})
  write_end = inspect λ w. act (write (record { payload = logs_end; timestamp = now w }))

  -- the history: stored rows come newest first, and are written oldest first
  unfoldable pub replay : Option (Store W) → Option (Connection W) → LogFilter → Exec W (Unit {0})
  unfolding write_rows
  replay st (some ch) f = branch (query_logs ch f) (λ r. write_rows (reverse r.0)) (λ _. pure tt)
  replay none none f = pure tt
  replay (some st) none f =
      if f.execution_id == ""
      then pure tt
      else branch (st.list_states f.execution_id)
          (λ states. write_rows (synthetic_logs_from_states states)) (λ _. pure tt)

  -- ServeLogsWSHandler from the upgraded connection on
  unfoldable pub serve_logs_ws :
      Option (Store W)
      → Option (Connection W)
      → LogFilter
      → (LogFilter → Exec W (List RowSignal))
      → Exec W (Unit {0})
  unfolding replay write_live
  serve_logs_ws st ch f subscribe = do
    replay st ch f
    write_end
    signals ← subscribe f
    write_live signals

-- the filter of ServeLogsWSHandler, from the values of the query
unfoldable pub log_stream_filter :
    (String → Option ℤ) → (String → Option Time) → (String → String) → LogFilter
unfolding parse_int_param
log_stream_filter atoi parse_time get = record {
  execution_id = get "execution_id";
  service_name = get "service_name";
  state_name = get "state_name";
  level = get "level";
  since = parse_time (get "since");
  until = none;
  query = get "q";
  limit = parse_int_param atoi (get "limit") (pos 50);
  offset = parse_int_param atoi (get "offset") (pos 0);
}
