-- ===== src/Gateway/Queries.antt =====
-- internal/grpc/gateway.go, TelemetryService; a row and its message hold the same fields.
use state_graph.Prelude.{String, ℤ, pos, Option, none, some, List, []}
use state_graph.Values.{internal, wrapped}
use state_graph.Exec.{Exec, pure, raise, branch}
use state_graph.Store.{Time}
use state_graph.Telemetry.{
  EventRow, MetricRow, LogRow, LogFilter, Connection, query_logs, query_execution_events,
  query_service_metrics,
}
use state_graph.Gateway.{int32}

module _ {W : Type 0} where
  unfoldable pub list_execution_events :
      Option (Connection W) → String → Option Time → ℤ → Exec W (List EventRow)
  list_execution_events none exec_id since limit = pure []
  list_execution_events (some c) exec_id since limit =
      branch (query_execution_events c exec_id since limit) pure
        (λ e. raise (internal (wrapped "query events" "" e)))

  unfoldable pub list_service_metrics :
      Option (Connection W) → String → Option Time → Option Time → ℤ → Exec W (List MetricRow)
  list_service_metrics none service_name since until limit = pure []
  list_service_metrics (some c) service_name since until limit =
      branch (query_service_metrics c service_name since until limit) pure
        (λ e. raise (internal (wrapped "query metrics" "" e)))

  -- the rows, and their total as an int32
  unfoldable pub list_logs : Option (Connection W) → LogFilter → Exec W (List LogRow × ℤ)
  list_logs none f = pure ([], pos 0)
  list_logs (some c) f =
      branch (query_logs c f) (λ r. pure (r.0, int32 (pos r.1)))
        (λ e. raise (internal (wrapped "query logs" "" e)))
