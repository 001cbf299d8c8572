-- ===== src/Store/Memory.antt =====
-- internal/store/memory_store.go, the executions and states (the services: Store/Memory/Services). Each method holds the mutex, so it is one step on the three maps;
-- `now` is what `time.Now()` returns in it.
pub mod Services
pub mod Keys
pub mod Records
pub mod Refines
pub mod Rows
pub mod Listing
use Prim.Native.Nat.{◌%◌}
use Prim.Native.String.{◌++◌ as ◌<>◌}
use state_graph.Prelude.{
  String, ℕ, ℤ, pos, negsuc, pos_part, ◌+◌, ◌-◌, Bool, true, false, not, ◌&&◌, ◌||◌, ◌==◌, Option,
  none, some, List, [], ◌∷◌, map, ltb, leb, length, take, drop, if◌then◌else◌,
}
use state_graph.Dict.{Dict, lookup, insert, erase}
use state_graph.Values.{
  Obj, Status, pending, running, completed, failed, execution_not_found, execution_exists,
  state_not_found, state_not_completed, state_already_terminal, service_not_found,
  duplicate_service_name,
}
use state_graph.Exec.{Result, ok, err, panics, Exec}
use state_graph.Store.{
  Time, ExecutionRecord, StateRecord, ServiceRecord, ServiceStatus, ExecutionFilter, Store,
}

pub record MemoryStore : Type 0 where
  pub executions : Dict ExecutionRecord
  pub states : Dict StateRecord
  pub services : Dict ServiceRecord

abbrev pub new_memory_store : MemoryStore
new_memory_store = record { executions = []; states = []; services = [] }

unfoldable pub state_key : String → String → String
state_key exec_id state_name = exec_id <> ":" <> state_name

unfoldable pub create_execution : Time → ExecutionRecord → Exec MemoryStore (Unit {0})
create_execution now r m = elim (lookup r.id m.executions) [
  | some _ ↦ (err (execution_exists r.id), m)
  | none ↦ (
    ok tt,
    record m {
      executions =
          insert r.id (record r { status = pending; created_at = now; updated_at = now })
            m.executions;
    },
  )
]

unfoldable pub get_execution : String → Exec MemoryStore ExecutionRecord
get_execution exec_id m = elim (lookup exec_id m.executions) [
  | none ↦ (err execution_not_found, m)
  | some r ↦ (ok r, m)
]

unfoldable pub update_execution : Time → String → Status → Exec MemoryStore (Unit {0})
update_execution now exec_id status m = elim (lookup exec_id m.executions) [
  | none ↦ (err execution_not_found, m)
  | some r ↦ (
    ok tt,
    record m {
      executions = insert exec_id (record r { status = status; updated_at = now }) m.executions;
    },
  )
]

abbrev pub is_completed : Status → Bool
is_completed completed = true
is_completed _ = false

abbrev pub holds_completed : Option StateRecord → Bool
holds_completed none = false
holds_completed (some r) = is_completed r.status

unfoldable pub write_ahead_state : Time → StateRecord → Exec MemoryStore (Unit {0})
write_ahead_state now r m =
    let key = state_key r.execution_id r.state_name in
    if holds_completed (lookup key m.states) then (err state_already_terminal, m) else (
      ok tt,
      record m {
        states =
            insert key (record r { status = pending; created_at = now; updated_at = now }) m.states;
      },
    )

-- the update of one state record that the next three methods share in shape
abbrev pub update_found :
    Option StateRecord → String → (StateRecord → StateRecord) → Exec MemoryStore (Unit {0})
update_found none key f m = (err state_not_found, m)
update_found (some r) key f m = (ok tt, record m { states = insert key (f r) m.states })

abbrev pub update_state : String → (StateRecord → StateRecord) → Exec MemoryStore (Unit {0})
update_state key f m = update_found (lookup key m.states) key f m

unfoldable pub mark_running : Time → String → String → Exec MemoryStore (Unit {0})
mark_running now exec_id state_name =
    update_state (state_key exec_id state_name) λ r. record r { status = running; updated_at = now }

unfoldable pub complete_state : Time → String → String → Obj → Exec MemoryStore (Unit {0})
complete_state now exec_id state_name output =
    update_state (state_key exec_id state_name)
      λ r. record r { status = completed; output = output; updated_at = now }

unfoldable pub fail_state : Time → String → String → String → Exec MemoryStore (Unit {0})
fail_state now exec_id state_name err_msg =
    update_state (state_key exec_id state_name)
      λ r. record r { status = failed; error = err_msg; updated_at = now }

abbrev pub output_of : Option StateRecord → Result Obj
output_of none = err state_not_found
output_of (some r) = if is_completed r.status then ok r.output else err state_not_completed

unfoldable pub get_state_output : String → String → Exec MemoryStore Obj
get_state_output exec_id state_name m =
    (output_of (lookup (state_key exec_id state_name) m.states), m)

abbrev pub values {ℓ} : {A : Type ℓ} → Dict A → List A
values [] = []
values ((_, a) ∷ m) = a ∷ values m

-- the text of a status, with which `filter.Status` is compared
abbrev pub status_text : Status → String
status_text pending = "Pending"
status_text running = "Running"
status_text completed = "Completed"
status_text failed = "Failed"

abbrev pub matches_filter : ExecutionFilter → ExecutionRecord → Bool
matches_filter f r =
    (f.workflow == "" || r.workflow == f.workflow)
    && (f.status == "" || status_text r.status == f.status)

abbrev pub select {ℓ} : {A : Type ℓ} → (A → Bool) → List A → List A
select p [] = []
select p (x ∷ xs) = let rest = select p xs in if p x then x ∷ rest else rest

-- limit <= 0 means 50
abbrev pub limit_of : ℤ → ℕ
limit_of l = if ltb 0 (pos_part l) then pos_part l else 50

-- an int has 64 bits
abbrev pub int_size : ℕ
int_size = 18446744073709551616  -- 1 << 64

abbrev pub max_int : ℕ
max_int = 9223372036854775807

-- start + limit of two ints that are not negative; a sum above the largest int is a negative one
unfoldable pub add_int : ℕ → ℕ → ℤ
add_int a b =
    let sum = (a + b) % int_size in
    if leb sum max_int then pos sum else negsuc ((int_size - sum) - 1)

-- results[start:end], where start is no more than the length; a negative end is below it
abbrev pub slice_to : ℕ → ℤ → List ExecutionRecord → Result (List ExecutionRecord)
slice_to start (negsuc _) results = panics
slice_to start (pos end) results =
    let bounded = if ltb (length results) end then length results else end in
    ok (take (bounded - start) (drop start results))

-- results[start:end]; a negative start passes both tests, and the slice expression panics
unfoldable pub page : ℤ → ℕ → List ExecutionRecord → Result (List ExecutionRecord)
unfolding add_int
page (negsuc _) limit results = panics
page (pos start) limit results =
    if ltb (length results) start then ok [] else slice_to start (add_int start limit) results

unfoldable pub list_executions : ExecutionFilter → Exec MemoryStore (List ExecutionRecord)
unfolding page
list_executions f m =
    (page f.offset (limit_of f.limit) (select (matches_filter f) (values m.executions)), m)

unfoldable pub list_states : String → Exec MemoryStore (List StateRecord)
list_states exec_id m = (ok (select (λ r. r.execution_id == exec_id) (values m.states)), m)
