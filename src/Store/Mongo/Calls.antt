-- ===== src/Store/Mongo/Calls.antt =====
-- The calls on states as internal/store/mongo_store.go makes them, and what callers must keep to.
use state_graph.Prelude.{true, String, ℕ, ◌≡◌, false, ◌<◌, Option, none, some, List, [], ◌∷◌, ltb}
use state_graph.Values.{Obj}
use state_graph.Exec.{ok, Exec}
use state_graph.Store.{Time, StateRecord}
use state_graph.Store.Memory.{is_completed}
use state_graph.Store.Memory.Keys.{IsColonFree}
use state_graph.Store.Memory.Records.{
  Records, no_value, Call, writes_ahead, marks_running, completes, fails, reads_output,
  execution_of, call_spec,
}
use state_graph.Store.Mongo.{MongoStore, Encoding, input_to_m}
use state_graph.Store.Mongo.States.{
  write_ahead_state, mark_running, complete_state, fail_state, get_state_output, ref_of,
}

abbrev pub state_of : Call → String
state_of (writes_ahead r) = r.state_name
state_of (marks_running e n) = n
state_of (reads_output e n) = n
state_of (completes e n output) = n
state_of (fails e n msg) = n

-- an output that is stored in the document as it is, and read back as it is
abbrev pub IsInline : Encoding → Obj → Type 0
IsInline enc output =
    (bytes : String) × (enc.marshal output ≡ ok bytes)
    × (ltb 1048576 (enc.byte_length bytes) ≡ false)
    × (ref_of output ≡ none)
    × (enc.survives output ≡ true)

-- a state that is not completed is written ahead only with a higher attempt
abbrev pub IsLater : ℕ → Option StateRecord → Type 0
IsLater attempt none = Unit
IsLater attempt (some r) = is_completed r.status ≡ false → r.attempt < attempt

abbrev pub IsAdmissible : Encoding → Call → Records → Type 0
IsAdmissible enc (writes_ahead r) records =
    IsLater r.attempt (records r.execution_id r.state_name)
    × (enc.survives (input_to_m r.input) ≡ true)
IsAdmissible enc (completes e n output) records = IsInline enc output
IsAdmissible enc _ records = Unit

-- each call of the sequence keeps to the rules when its turn comes
abbrev pub Admits : Encoding → List (Time × Call) → Records → Type 0
Admits enc [] records = Unit
Admits enc ((now, c) ∷ cs) records =
    IsColonFree (execution_of c)
    × IsColonFree (state_of c)
    × IsAdmissible enc c records
    × Admits enc cs (call_spec now c records).1

module _ {W : Type 0} (s : MongoStore W) where
  -- The call as the store makes it.
  unfoldable pub call : Call → Exec W Obj
  call (writes_ahead r) w = no_value (write_ahead_state s r w)
  call (marks_running e n) w = no_value (mark_running s e n w)
  call (completes e n output) w = no_value (complete_state s e n output w)
  call (fails e n msg) w = no_value (fail_state s e n msg w)
  call (reads_output e n) w = get_state_output s e n w
