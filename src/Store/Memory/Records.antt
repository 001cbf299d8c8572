-- ===== src/Store/Memory/Records.antt =====
-- The abstract view of the state records: a map from pairs of an execution and a state, with one
-- step for each call.
use state_graph.Prelude.{String, ◌&&◌, ◌==◌, Option, none, some, [], if◌then◌else◌}
use state_graph.Values.{
  Obj, pending, running, completed, failed, state_not_found, state_not_completed,
  state_already_terminal,
}
use state_graph.Exec.{Result, ok, err}
use state_graph.Store.{Time, StateRecord}
use state_graph.Store.Memory.{
  MemoryStore, is_completed, holds_completed, write_ahead_state, mark_running, complete_state,
  fail_state, get_state_output,
}

abbrev pub Records : Type 0
Records = String → String → Option StateRecord

abbrev pub put : String → String → StateRecord → Records → Records
put e n r records e' n' = if e == e' && n == n' then some r else records e' n'

-- The calls of the interface that concern one state record.
pub data Call : Type 0 where
  writes_ahead : StateRecord → Call
  marks_running reads_output : String → String → Call
  completes : String → String → Obj → Call
  fails : String → String → String → Call

abbrev pub execution_of : Call → String
execution_of (writes_ahead r) = r.execution_id
execution_of (marks_running e n) = e
execution_of (reads_output e n) = e
execution_of (completes e n output) = e
execution_of (fails e n msg) = e

abbrev pub no_value : {A : Type 0} → Result (Unit {0}) × A → Result Obj × A
no_value (ok _, a) = (ok [], a)
no_value (err e, a) = (err e, a)
no_value (Result.panics, a) = (Result.panics, a)
no_value (Result.running, a) = (Result.running, a)

-- The call as the memory store makes it.
unfoldable pub call : Time → Call → MemoryStore → Result Obj × MemoryStore
call now (writes_ahead r) m = no_value (write_ahead_state now r m)
call now (marks_running e n) m = no_value (mark_running now e n m)
call now (completes e n output) m = no_value (complete_state now e n output m)
call now (fails e n msg) m = no_value (fail_state now e n msg m)
call now (reads_output e n) m = get_state_output e n m

-- The call as the interface promises it.
abbrev pub change :
    String
    → String
    → (StateRecord → StateRecord)
    → Option StateRecord
    → Records
    → Result Obj × Records
change e n f none records = (err state_not_found, records)
change e n f (some r) records = (ok [], put e n (f r) records)

abbrev pub output_in : Option StateRecord → Result Obj
output_in none = err state_not_found
output_in (some r) = if is_completed r.status then ok r.output else err state_not_completed

unfoldable pub call_spec : Time → Call → Records → Result Obj × Records
call_spec now (writes_ahead r) records =
    if holds_completed (records r.execution_id r.state_name)
    then (err state_already_terminal, records)
    else (
      ok [],
      put r.execution_id r.state_name
          (record r { status = pending; created_at = now; updated_at = now }) records,
    )
call_spec now (marks_running e n) records =
    change e n (λ r. record r { status = running; updated_at = now }) (records e n) records
call_spec now (completes e n output) records =
    change e n (λ r. record r { status = completed; output = output; updated_at = now })
      (records e n) records
call_spec now (fails e n msg) records =
    change e n (λ r. record r { status = failed; error = msg; updated_at = now }) (records e n)
      records
call_spec now (reads_output e n) records = (output_in (records e n), records)
