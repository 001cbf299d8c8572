-- ===== src/Api/Logs.antt =====
-- internal/api/telemetry_handler.go and the history of internal/api/logs_ws_handler.go.
use Prim.Native.String.{◌++◌ as ◌<>◌}
use state_graph.Prelude.{
  String, ℤ, pos, ◌==◌, Option, none, some, List, [], ◌∷◌, ◌++◌, length, if◌then◌else◌,
}
use state_graph.Values.{Status, completed, failed}
use state_graph.Exec.{if_found, Exec, pure, branch, ◌>>=◌}
use state_graph.Store.{Time, StateRecord, Store}
use state_graph.Telemetry.{
  LogRow, LogFilter, Connection, query_logs, query_execution_events, query_service_metrics,
}
use state_graph.Api.{
  Response, problem, success, internal_error, parse_int_param, events, metrics, logs,
}

abbrev row_of : StateRecord → String → String → String → Time → LogRow
row_of st suffix level message at = record {
  log_id = st.execution_id <> ("/" <> (st.state_name <> suffix));
  execution_id = st.execution_id;
  service_name = "";
  state_name = st.state_name;
  level = level;
  message = message;
  occurred_at = at;
}

abbrev end_row : StateRecord → Status → List LogRow
end_row st completed =
    row_of st "/complete" "INFO" ("[" <> (st.state_name <> "] completed")) st.updated_at ∷ []
end_row st failed =
    row_of st "/fail" "ERROR" ("[" <> (st.state_name <> ("] failed: " <> st.error))) st.updated_at
    ∷ []
end_row st _ = []

unfoldable pub synthetic_logs_from_states : List StateRecord → List LogRow
synthetic_logs_from_states [] = []
synthetic_logs_from_states (st ∷ sts) =
    row_of st "/start" "INFO" ("[" <> (st.state_name <> "] started")) st.created_at
    ∷ (end_row st st.status ++ synthetic_logs_from_states sts)

abbrev log_page : List LogRow → Response
log_page rows = success 200 (logs rows (length rows))

-- `parse_time` is time.Parse with RFC3339; a parameter that is not given is no bound.
abbrev with_time :
    {W : Type 0}
    → (String → Option Time)
    → String
    → String
    → (Option Time → Exec W Response)
    → Exec W Response
with_time parse_time what text use_it =
    if text == ""
    then use_it none
    else if_found (parse_time text) (pure (problem 400 what "bad_request")) (λ t. use_it (some t))

module _ {W : Type 0} (atoi : String → Option ℤ) (parse_time : String → Option Time) where
  unfoldable pub handle_list_events :
      Option (Connection W) → String → String → String → Exec W Response
  unfolding parse_int_param
  handle_list_events none id since limit = pure (success 200 (events []))
  handle_list_events (some c) id since limit =
      with_time parse_time "invalid since timestamp" since λ from.
        branch (query_execution_events c id from (parse_int_param atoi limit (pos 100)))
          (λ rows. pure (success 200 (events rows)))
          (λ _. pure (internal_error "failed to query events"))

  unfoldable pub handle_list_metrics :
      Option (Connection W) → String → String → String → String → Exec W Response
  unfolding parse_int_param
  handle_list_metrics none asked since until limit = pure (success 200 (metrics []))
  handle_list_metrics (some c) asked since until limit =
      with_time parse_time "invalid since timestamp" since λ from.
        with_time parse_time "invalid until timestamp" until λ to.
          branch (query_service_metrics c asked from to (parse_int_param atoi limit (pos 100)))
            (λ rows. pure (success 200 (metrics rows)))
            (λ _. pure (internal_error "failed to query metrics"))

  -- The filter of the query, of which the limit, the offset and the times are parsed here.
  unfoldable pub handle_list_logs :
      Store W
      → Option (Connection W)
      → LogFilter
      → String
      → String
      → String
      → String
      → Exec W Response
  unfolding parse_int_param synthetic_logs_from_states
  handle_list_logs store none f since until limit offset =
      if f.execution_id == ""
      then pure (log_page [])
      else branch (store.list_states f.execution_id)
          (λ states. pure (log_page (synthetic_logs_from_states states))) (λ _. pure (log_page []))
  handle_list_logs store (some c) f since until limit offset =
      with_time parse_time "invalid since timestamp" since λ from.
        with_time parse_time "invalid until timestamp" until λ to.
          branch
            (query_logs c (record f {
              since = from;
              until = to;
              limit = parse_int_param atoi limit (pos 100);
              offset = parse_int_param atoi offset (pos 0);
            }))
            (λ r. pure (success 200 (logs r.0 r.1)))
            (λ _. pure (internal_error "failed to query logs"))

-- the rows that the log stream replays
unfoldable pub logs_for_filter :
    {W : Type 0} → Store W → Option (Connection W) → LogFilter → Exec W (List LogRow)
unfolding synthetic_logs_from_states
logs_for_filter store none f =
    if f.execution_id == ""
    then pure []
    else (do states ← store.list_states f.execution_id; pure (synthetic_logs_from_states states))
logs_for_filter store (some c) f = do r ← query_logs c f; pure r.0
