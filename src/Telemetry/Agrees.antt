-- ===== src/Telemetry/Agrees.antt =====
-- The live filter of internal/api/logs_ws_handler.go against the query of internal/telemetry/logs.go.
use Prim.Native.String.{◌++◌ as ◌<>◌}
use state_graph.Prelude.{
  String, ◌≡◌, refl, Bool, true, false, not, ◌&&◌, ◌||◌, ◌==◌, leb, eq_iff, arith, Bool-cases, inl,
  inr, none, List, [], ◌∷◌, ◌++◌, if◌then◌else◌,
}
use state_graph.Telemetry.{
  LogRow, LogFilter, Condition, equals, from_time, until_time, like, log_conditions, unless_blank,
}
use state_graph.Telemetry.Filter.{matches_log_filter, contains, differs}

abbrev pub column : String → LogRow → String
column name row =
    if name == "execution_id"
    then row.execution_id
    else if name == "service_name"
    then row.service_name
    else if name == "state_name"
    then row.state_name
    else if name == "level"
    then row.level
    else row.message

chain :
    (a b c d q k : Bool)
    → (if a
        then false
        else if b
        then false
        else if c
        then false
        else if d
        then false
        else if not q && not k
        then false
        else true)
      ≡ (not a && (not b && (not c && (not d && (q || k)))))
chain true b c d q k = refl
chain false true c d q k = refl
chain false false true d q k = refl
chain false false false true q k = refl
chain false false false false true k = refl
chain false false false false false true = refl
chain false false false false false false = refl

-- What the database checks of a row, `is_like` being its LIKE.
module _ (is_like : String → String → Bool) where
  abbrev pub holds : LogRow → Condition → Bool
  holds row (equals name value) = column name row == value
  holds row (from_time t) = leb t row.occurred_at
  holds row (until_time t) = leb row.occurred_at t
  holds row (like name pattern) = is_like pattern (column name row)

  abbrev pub all_hold : LogRow → List Condition → Bool
  all_hold row [] = true
  all_hold row (c ∷ cs) = let rest = all_hold row cs in holds row c && rest

  all_hold-append :
      (row : LogRow) (cs ds : List Condition)
      → all_hold row (cs ++ ds) ≡ (all_hold row cs && all_hold row ds)
  all_hold-append row [] ds = refl
  all_hold-append row (c ∷ cs) ds = rw (all_hold-append row cs ds) (ground arith)

  all_hold-blank :
      (row : LogRow) (name value : String)
      → all_hold row (unless_blank name value) ≡ not (differs value (column name row))
  all_hold-blank row name value = ground (arith, eq_iff value "")

  all_hold-like :
      (row : LogRow) (query : String)
      → (is_like ("%" <> (query <> "%")) row.message ≡ contains query row.message)
      → all_hold row (if query == "" then [] else like "message" ("%" <> (query <> "%")) ∷ [])
        ≡ (query == "" || contains query row.message)
  all_hold-like row query same = elim (Bool-cases (query == "")) [
    | inl q ↦ rw (q) refl
    | inr q ↦ rw (q, same) (ground arith)
  ]

  -- Without time bounds, and for a search text that LIKE takes for itself between two %, the rows that
  -- the query selects are those that the live filter lets through.
  pub matches_log_filter-query :
      (row : LogRow) (f : LogFilter)
      → f.since ≡ none
      → f.until ≡ none
      → (is_like ("%" <> (f.query <> "%")) row.message ≡ contains f.query row.message)
      → matches_log_filter row f ≡ all_hold row (log_conditions f)
  unfolding matches_log_filter log_conditions
  matches_log_filter-query row f no_since no_until same =
      rw (no_since, no_until)
        (rw
          (
            all_hold-append row (unless_blank "execution_id" f.execution_id) _,
            all_hold-append row (unless_blank "service_name" f.service_name) _,
            all_hold-append row (unless_blank "state_name" f.state_name) _,
            all_hold-append row (unless_blank "level" f.level) _,
            all_hold-blank row "execution_id" f.execution_id,
            all_hold-blank row "service_name" f.service_name,
            all_hold-blank row "state_name" f.state_name,
            all_hold-blank row "level" f.level,
            all_hold-like row f.query same,
          )
          (chain (differs f.execution_id row.execution_id) (differs f.service_name row.service_name)
            (differs f.state_name row.state_name) (differs f.level row.level) (f.query == "")
            (contains f.query row.message)))
