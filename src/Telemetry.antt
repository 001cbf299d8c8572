-- ===== src/Telemetry.antt =====
-- internal/telemetry: the rows, and the queries that logs.go, events.go and metrics.go build.
pub mod Filter
pub mod Agrees
pub mod Writers
pub mod Lines
use Prim.Native.String.{◌++◌ as ◌<>◌}
use state_graph.Prelude.{
  String, ℕ, ℤ, pos, negsuc, zero, suc, Bool, true, ltb, ◌==◌, Option, none, some, List, [], ◌∷◌,
  ◌++◌, if◌then◌else◌,
}
use state_graph.Exec.{Exec, pure, ◌>>=◌}
use state_graph.Store.{Time}

pub record EventRow : Type 0 where
  pub event_id : String
  pub execution_id : String
  pub state_name : String
  pub from_status : String
  pub to_status : String
  pub error : String
  pub occurred_at : Time

pub record MetricRow : Type 0 where
  pub metric_id : String
  pub service_name : String
  pub invocation_id : String
  pub duration_ms : ℕ
  pub status_code : ℕ
  pub error : String
  pub occurred_at : Time

pub record LogRow : Type 0 where
  pub log_id : String
  pub execution_id : String
  pub service_name : String
  pub state_name : String
  pub level : String
  pub message : String
  pub occurred_at : Time

pub record LogFilter : Type 0 where
  pub execution_id : String
  pub service_name : String
  pub state_name : String
  pub level : String
  pub since : Option Time
  pub until : Option Time
  pub query : String
  pub limit : ℤ
  pub offset : ℤ

-- clampLimit, for a default and a maximum that are not negative
unfoldable pub clamp_limit : ℤ → ℕ → ℕ → ℕ
clamp_limit (negsuc _) def max = def
clamp_limit (pos zero) def max = def
clamp_limit (pos (suc n)) def max = if ltb max (suc n) then max else suc n

-- One condition of a WHERE clause, with its argument.
pub data Condition : Type 0 where
  equals : String → String → Condition
  from_time until_time : Time → Condition
  like : String → String → Condition

-- What the code uses of the ClickHouse connection.
pub record Connection (W : Type 0) : Type 0 where
  pub count_logs : List Condition → Exec W ℕ
  pub select_logs : List Condition → ℕ → ℤ → Exec W (List LogRow)
  pub select_events : List Condition → ℕ → Exec W (List EventRow)
  pub select_metrics : List Condition → ℕ → Exec W (List MetricRow)

abbrev pub unless_blank : String → String → List Condition
unless_blank column value = if value == "" then [] else equals column value ∷ []

abbrev pub since_condition : Option Time → List Condition
since_condition none = []
since_condition (some t) = from_time t ∷ []

abbrev pub until_condition : Option Time → List Condition
until_condition none = []
until_condition (some t) = until_time t ∷ []

-- the WHERE clause of QueryLogs
unfoldable pub log_conditions : LogFilter → List Condition
log_conditions f =
    unless_blank "execution_id" f.execution_id
    ++ (unless_blank "service_name" f.service_name
        ++ (unless_blank "state_name" f.state_name
            ++ (unless_blank "level" f.level
                ++ (since_condition f.since
                    ++ (until_condition f.until
                        ++ (if f.query == ""
                            then []
                            else like "message" ("%" <> (f.query <> "%")) ∷ []))))))

module _ {W : Type 0} (c : Connection W) where
  unfoldable pub query_logs : LogFilter → Exec W (List LogRow × ℕ)
  unfolding log_conditions clamp_limit
  query_logs f = do
    total ← c.count_logs (log_conditions f)
    rows ← c.select_logs (log_conditions f) (clamp_limit f.limit 100 1000) f.offset
    pure (rows, total)

  unfoldable pub query_execution_events : String → Option Time → ℤ → Exec W (List EventRow)
  unfolding clamp_limit
  query_execution_events exec_id since limit =
      c.select_events (equals "execution_id" exec_id ∷ since_condition since)
        (clamp_limit limit 100 1000)

  unfoldable pub query_service_metrics :
      String → Option Time → Option Time → ℤ → Exec W (List MetricRow)
  unfolding clamp_limit
  query_service_metrics service_name since until limit =
      c.select_metrics
        (equals "service_name" service_name ∷ since_condition since ++ until_condition until)
        (clamp_limit limit 100 1000)
