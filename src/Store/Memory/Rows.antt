-- ===== src/Store/Memory/Rows.antt =====
-- The methods of the memory store at a state whose record is known.
use state_graph.Prelude.{String, ◌≡◌, refl, true, false, some}
use state_graph.Dict.{lookup, insert}
use state_graph.Values.{Obj, pending, running, completed, failed, state_already_terminal}
use state_graph.Exec.{ok, err}
use state_graph.Store.{Time, StateRecord}
use state_graph.Store.Memory.{
  MemoryStore, state_key, is_completed, write_ahead_state, mark_running, complete_state, fail_state,
  get_state_output, holds_completed,
}

-- a store with one record written
abbrev pub write_row : String → StateRecord → MemoryStore → MemoryStore
write_row key r m = record m { states = insert key r m.states }

module _ (now : Time) (e n : String) (m : MemoryStore) {r : StateRecord} where
  pub mark_running-found :
      lookup (state_key e n) m.states ≡ some r
      → mark_running now e n m
        ≡ (ok tt, write_row (state_key e n) (record r { status = running; updated_at = now }) m)
  unfolding mark_running
  mark_running-found h = rw h refl

  pub complete_state-found :
      (output : Obj)
      → lookup (state_key e n) m.states ≡ some r
      → complete_state now e n output m ≡ (
        ok tt,
        write_row
            (state_key e n)
            (record r { status = completed; output = output; updated_at = now })
            m,
      )
  unfolding complete_state
  complete_state-found output h = rw h refl

  pub fail_state-found :
      (message : String)
      → lookup (state_key e n) m.states ≡ some r
      → fail_state now e n message m ≡ (
        ok tt,
        write_row
            (state_key e n)
            (record r { status = failed; error = message; updated_at = now })
            m,
      )
  unfolding fail_state
  fail_state-found message h = rw h refl

pub get_state_output-found :
    (e n : String) (m : MemoryStore) (r : StateRecord)
    → lookup (state_key e n) m.states ≡ some r
    → is_completed r.status ≡ true
    → get_state_output e n m ≡ (ok r.output, m)
unfolding get_state_output
get_state_output-found e n m r h c = rw (h, c) refl

module _ (now : Time) (r : StateRecord) (m : MemoryStore) where
  pub write_ahead_state-terminal :
      holds_completed (lookup (state_key r.execution_id r.state_name) m.states) ≡ true
      → write_ahead_state now r m ≡ (err state_already_terminal, m)
  unfolding write_ahead_state
  write_ahead_state-terminal h = rw h refl

  pub write_ahead_state-fresh :
      holds_completed (lookup (state_key r.execution_id r.state_name) m.states) ≡ false
      → write_ahead_state now r m ≡ (
        ok tt,
        write_row
            (state_key r.execution_id r.state_name)
            (record r { status = pending; created_at = now; updated_at = now })
            m,
      )
  unfolding write_ahead_state
  write_ahead_state-fresh h = rw h refl
