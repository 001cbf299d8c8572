-- ===== src/Telemetry/Filter.antt =====
-- The filter of a live log stream (internal/api/logs_ws_handler.go) beside that of the stored logs
-- (internal/telemetry/logs.go).
use Prim.Native.Char.{code}
use Prim.Native.Nat.{compare, Ordering}
use state_graph.Prelude.{String, Bool, true, false, not, ◌&&◌, ◌||◌, ◌==◌, if◌then◌else◌}
use state_graph.Telemetry.{LogRow, LogFilter}

abbrev pub has_prefix : String → String → Bool
has_prefix String.[] s = true
has_prefix (String.◌∷◌ c p) String.[] = false
has_prefix (String.◌∷◌ c p) (String.◌∷◌ d s) =
    let rest = has_prefix p s in elim (compare (code c) (code d)) [ Ordering.eq ↦ rest | _ ↦ false ]

-- strings.Contains(s, text)
abbrev pub contains : String → String → Bool
contains text String.[] = has_prefix text String.[]
contains text (String.◌∷◌ c s) =
    let rest = contains text s in has_prefix text (String.◌∷◌ c s) || rest

-- a field that the filter asks for, and that differs
abbrev pub differs : String → String → Bool
differs asked value = not (asked == "") && not (value == asked)

unfoldable pub matches_log_filter : LogRow → LogFilter → Bool
matches_log_filter row f =
    if differs f.execution_id row.execution_id
    then false
    else if differs f.service_name row.service_name
    then false
    else if differs f.state_name row.state_name
    then false
    else if differs f.level row.level
    then false
    else if not (f.query == "") && not (contains f.query row.message)
    then false
    else true
