-- ===== src/Telemetry/Writers.antt =====
-- internal/telemetry: the client, the schema, and the writers of logs.go, events.go and metrics.go. A
-- writer starts a goroutine for each row; that of a log row runs at any time, those of events and
-- metrics have run when the call returns. A writer that is nil
-- or has no client is `none`, where the code treats both alike.
use Prim.Native.String.{◌++◌ as ◌<>◌}
use state_graph.Prelude.{String, ℕ, Option, none, some, List, [], ◌∷◌}
use state_graph.Values.{Status, wrapped}
use state_graph.Exec.{Result, Exec, pure, raise, of_result, act, branch, ◌>>◌}
use state_graph.Store.{Time}
use state_graph.Telemetry.{LogRow}

-- a table with its columns and their types, its order and the days that a row is kept
pub record Table : Type 0 where
  pub name : String
  pub columns : List (String × String)
  pub order_by : List String
  pub ttl_days : ℕ

abbrev pub occurred_at_column : List (String × String)
occurred_at_column = ("occurred_at", "DateTime64(3) DEFAULT now64()") ∷ []

abbrev pub execution_events_table : Table
execution_events_table = record {
  name = "execution_events";
  columns =
      ("event_id", "UUID DEFAULT generateUUIDv4()")
      ∷ ("execution_id", "String")
      ∷ ("state_name", "String")
      ∷ ("from_status", "String")
      ∷ ("to_status", "String")
      ∷ ("error", "String")
      ∷ occurred_at_column;
  order_by = "execution_id" ∷ "occurred_at" ∷ [];
  ttl_days = 90;
}

abbrev pub service_metrics_table : Table
service_metrics_table = record {
  name = "service_metrics";
  columns =
      ("metric_id", "UUID DEFAULT generateUUIDv4()")
      ∷ ("service_name", "String")
      ∷ ("invocation_id", "String")
      ∷ ("duration_ms", "UInt64")
      ∷ ("status_code", "UInt16")
      ∷ ("error", "String")
      ∷ occurred_at_column;
  order_by = "service_name" ∷ "occurred_at" ∷ [];
  ttl_days = 90;
}

abbrev pub logs_table : Table
logs_table = record {
  name = "logs";
  columns =
      ("log_id", "UUID DEFAULT generateUUIDv4()")
      ∷ ("execution_id", "String")
      ∷ ("service_name", "String")
      ∷ ("state_name", "String")
      ∷ ("level", "String")
      ∷ ("message", "String")
      ∷ occurred_at_column;
  order_by = "execution_id" ∷ "occurred_at" ∷ [];
  ttl_days = 30;
}

-- What the code uses of the ClickHouse driver: the statements that it executes, which may fail.
pub record Driver (W : Type 0) : Type 0 where
  pub create_if_not_exists : Table → Exec W (Unit {0})
  pub insert_event : String → String → Status → Status → String → Exec W (Unit {0})
  pub insert_metric : String → String → ℕ → ℕ → String → Exec W (Unit {0})
  pub insert_log : LogRow → Exec W (Unit {0})
  pub close : Exec W (Unit {0})

-- Parsing a DSN to options of a type, opening, and the ping.
pub record Dialer (O W : Type 0) : Type 0 where
  pub parse_dsn : String → Result O
  pub open_connection : O → Exec W (Driver W)
  pub ping : Driver W → Exec W (Unit {0})

unfoldable pub new_client : {O W : Type 0} → Dialer O W → String → Exec W (Driver W)
new_client d dsn =
    branch (of_result (d.parse_dsn dsn))
      (λ opts.
        branch (d.open_connection opts)
          (λ conn.
            branch (d.ping conn) (λ _. pure conn)
              (λ e.
                branch conn.close (λ _. raise (wrapped "telemetry: ping ClickHouse" "" e))
                  (λ _. raise (wrapped "telemetry: ping ClickHouse" "" e))))
          (λ e. raise (wrapped "telemetry: open ClickHouse connection" "" e)))
      (λ e. raise (wrapped "telemetry: parse ClickHouse DSN" "" e))

-- A LogWriter, with uuid.New, the clock, and the go statement, which starts a goroutine with a body and
-- leaves open when this runs; `on_write` may be nil.
pub record LogWriter (W : Type 0) : Type 0 where
  pub ch : Option (Driver W)
  pub on_write : Option (LogRow → W → W)
  pub new_uuid : W → String
  pub go : (W → W) → W → W
  pub now : W → Time

-- What StreamJobLogs uses of the cluster: the pods with a label, and the lines of a pod's log as far
-- as they can be read.
pub record PodLogs (W : Type 0) : Type 0 where
  pub list_pods : String → Exec W (List String)
  pub read_log : String → Exec W (List String)

module _ {W : Type 0} where
  unfoldable pub create_tables : Driver W → List Table → Exec W (Unit {0})
  create_tables ch [] = pure tt
  create_tables ch (t ∷ ts) =
      branch (ch.create_if_not_exists t) (λ _. create_tables ch ts)
        (λ e. raise (wrapped "telemetry: init schema" "" e))

  unfoldable pub init_schema : Driver W → Exec W (Unit {0})
  unfolding create_tables
  init_schema ch =
      create_tables ch (execution_events_table ∷ service_metrics_table ∷ logs_table ∷ [])

  -- the world after a statement whose error is only logged
  abbrev pub best_effort : Exec W (Unit {0}) → W → W
  best_effort m w = (m w).1

  unfoldable pub record_state_transition :
      Option (Driver W) → String → String → Status → Status → String → W → W
  record_state_transition none exec_id state from to msg w = w
  record_state_transition (some ch) exec_id state from to msg w =
      best_effort (ch.insert_event exec_id state from to msg) w

  unfoldable pub record_service_invocation :
      Option (Driver W) → String → String → ℕ → ℕ → String → W → W
  record_service_invocation none service invocation ms code msg w = w
  record_service_invocation (some ch) service invocation ms code msg w =
      best_effort (ch.insert_metric service invocation ms code msg) w

  abbrev pub new_row : LogWriter W → String → String → String → String → String → W → LogRow
  new_row lw exec_id service state level message w = record {
    log_id = lw.new_uuid w;
    execution_id = exec_id;
    service_name = service;
    state_name = state;
    level = level;
    message = message;
    occurred_at = lw.now w;
  }

  abbrev pub insert_row : Option (Driver W) → LogRow → W → W
  insert_row none row w = w
  insert_row (some ch) row w = best_effort (ch.insert_log row) w

  abbrev pub call_back : Option (LogRow → W → W) → LogRow → W → W
  call_back none row w = w
  call_back (some f) row w = f row w

  -- the body of the goroutine of a row
  abbrev pub write_row : LogWriter W → LogRow → W → W
  write_row lw row w = call_back lw.on_write row (insert_row lw.ch row w)

  unfoldable pub write : Option (LogWriter W) → String → String → String → String → String → W → W
  write none exec_id service state level message w = w
  write (some lw) exec_id service state level message w =
      let row = new_row lw exec_id service state level message w in lw.go (write_row lw row) w

  unfoldable pub write_lines : Option (LogWriter W) → String → String → List String → W → W
  unfolding write
  write_lines lw exec_id state [] w = w
  write_lines lw exec_id state (line ∷ lines) w =
      write_lines lw exec_id state lines (write lw exec_id "" state "INFO" line w)

  unfoldable pub stream_pods :
      PodLogs W → Option (LogWriter W) → String → String → List String → Exec W (Unit {0})
  unfolding write_lines
  stream_pods k lw exec_id state [] = pure tt
  stream_pods k lw exec_id state (pod ∷ pods) =
      branch (k.read_log pod)
        (λ lines. do act (write_lines lw exec_id state lines); stream_pods k lw exec_id state pods)
        (λ _. stream_pods k lw exec_id state pods)

  unfoldable pub stream_job_logs :
      Option (PodLogs W) → Option (LogWriter W) → String → String → String → Exec W (Unit {0})
  unfolding stream_pods
  stream_job_logs none lw job exec_id state = pure tt
  stream_job_logs (some k) lw job exec_id state =
      branch (k.list_pods ("job-name=" <> job)) (stream_pods k lw exec_id state) (λ _. pure tt)
