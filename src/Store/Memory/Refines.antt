-- ===== src/Store/Memory/Refines.antt =====
-- The memory store, with its joined keys, does what the view by pairs says.
use mathlib.Core.Path.{ap₂}
use state_graph.Prelude.{
  String, ◌≡◌, refl, sym, subst, ap, inl, inr, ◌&&◌, ◌==◌, eq_iff, Option, none, some, List, [],
  ◌∷◌, arith, Bool-cases, All,
}
use state_graph.Dict.{lookup, insert, lookup-insert}
use state_graph.Values.{Obj}
use state_graph.Exec.{Result}
use state_graph.Store.{Time, StateRecord}
use state_graph.Store.Memory.{
  MemoryStore, state_key, write_ahead_state, mark_running, complete_state, fail_state,
  get_state_output, update_state, update_found, output_of, holds_completed,
}
use state_graph.Store.Memory.Keys.{IsColonFree, state_key-injective}
use state_graph.Store.Memory.Records.{
  Records, put, no_value, change, Call, writes_ahead, marks_running, completes, fails, reads_output,
  execution_of, call, call_spec,
}

keys_eq :
    (e e' n n' : String)
    → IsColonFree e
    → IsColonFree e'
    → (state_key e n == state_key e' n') ≡ (e == e' && n == n')
keys_eq e e' n n' p p' = ground (
  arith,
  eq_iff (state_key e n) (state_key e' n'),
  eq_iff e e',
  eq_iff n n',
  state_key-injective e e' n n' p p',
)

-- the store and the view hold the same records, for executions without a colon
abbrev pub Agree : MemoryStore → Records → Type 0
Agree m records = (e n : String) → IsColonFree e → lookup (state_key e n) m.states ≡ records e n

insert-Agree :
    (m : MemoryStore) (records : Records) (e n : String) (r : StateRecord)
    → IsColonFree e
    → Agree m records
    → Agree (record m { states = insert (state_key e n) r m.states }) (put e n r records)
insert-Agree m records e n r p h e' n' p' = rw (lookup-insert, keys_eq e e' n n' p p', h e' n' p')

-- one reply and one state of each side
abbrev pub Matches : Result Obj × MemoryStore → Result Obj × Records → Type 0
Matches (reply, m) (reply', records) = (reply ≡ reply') × Agree m records

found-refines :
    (o : Option StateRecord) (e n : String) (f : StateRecord → StateRecord) (m : MemoryStore)
    (records : Records)
    → IsColonFree e
    → Agree m records
    → Matches (no_value (update_found o (state_key e n) f m)) (change e n f o records)
found-refines none e n f m records p h = (refl, h)
found-refines (some r) e n f m records p h = (refl, insert-Agree m records e n (f r) p h)

update-refines :
    (e n : String) (f : StateRecord → StateRecord) (m : MemoryStore) (records : Records)
    → IsColonFree e
    → Agree m records
    → Matches (no_value (update_state (state_key e n) f m)) (change e n f (records e n) records)
update-refines e n f m records p h =
    subst
      (λ o.
        Matches (no_value (update_found o (state_key e n) f m))
          (change e n f (records e n) records))
      (sym (h e n p)) (found-refines (records e n) e n f m records p h)

call-refines :
    (now : Time) (c : Call) (m : MemoryStore) (records : Records)
    → IsColonFree (execution_of c)
    → Agree m records
    → Matches (call now c m) (call_spec now c records)
unfolding call call_spec write_ahead_state mark_running complete_state fail_state get_state_output
call-refines now (writes_ahead r) m records p h =
    elim (Bool-cases (holds_completed (records r.execution_id r.state_name))) [
      | inl q ↦ rw (h r.execution_id r.state_name p, q) (refl, h)
      | inr q ↦
          rw (h r.execution_id r.state_name p, q)
            (refl, insert-Agree m records r.execution_id r.state_name _ p h)
    ]
call-refines now (marks_running e n) m records p h = update-refines e n _ m records p h
call-refines now (completes e n output) m records p h = update-refines e n _ m records p h
call-refines now (fails e n msg) m records p h = update-refines e n _ m records p h
call-refines now (reads_output e n) m records p h = (ap output_of (h e n p), h)

-- a run of calls, each at its time, with all the replies
unfoldable pub calls : List (Time × Call) → MemoryStore → List (Result Obj)
calls [] m = []
calls ((now, c) ∷ cs) m = let (reply, m') = call now c m in reply ∷ calls cs m'

unfoldable pub calls_spec : List (Time × Call) → Records → List (Result Obj)
calls_spec [] records = []
calls_spec ((now, c) ∷ cs) records =
    let (reply, records') = call_spec now c records in reply ∷ calls_spec cs records'

-- For executions whose ids hold no colon, every sequence of calls on state records gets from the
-- memory store, from any contents, the replies that the map by pairs gives.
pub calls-refines :
    (cs : List (Time × Call)) (m : MemoryStore) (records : Records)
    → All (λ c. IsColonFree (execution_of c.1)) cs
    → Agree m records
    → calls cs m ≡ calls_spec cs records
unfolding calls calls_spec
calls-refines [] m records ps h = refl
calls-refines ((now, c) ∷ cs) m records ps h =
    let (same, h') = call-refines now c m records ps.0 h in
    ap₂ ◌∷◌ same (calls-refines cs (call now c m).1 (call_spec now c records).1 ps.1 h')
