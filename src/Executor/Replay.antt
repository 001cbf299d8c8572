-- ===== src/Executor/Replay.antt =====
-- A state that has completed is not run again.
use state_graph.Prelude.{String, ℕ, suc, ◌≡◌, refl, ap, ◌∙◌, true, false, Option, none, some}
use state_graph.Dict.{lookup, lookup-insert_self}
use state_graph.Values.{Obj, pending, running, completed}
use state_graph.Exec.{ok, Exec, pure, branch}
use state_graph.Workflow.{is_wait}
use state_graph.Graph.{Node, Graph}
use state_graph.Store.{StateRecord}
use state_graph.Store.Memory.{state_key, is_completed, holds_completed}
use state_graph.Store.Memory.Services.{World}
use state_graph.Store.Memory.Rows.{
  write_row, write_ahead_state-terminal, write_ahead_state-fresh, mark_running-found,
  complete_state-found, get_state_output-found,
}
use state_graph.InProcess.{local_executor}
use state_graph.Executor.{
  Runtime, state_record, resume_time, work, start, finish, recall, apply_retry, execute_state,
}

completed-terminal :
    (o : Option StateRecord) {r : StateRecord}
    → o ≡ some r
    → is_completed r.status ≡ true
    → holds_completed o ≡ true
completed-terminal o e c = rw (e, c) refl

module _ {U : Type 0} (rt : Runtime (World U)) (handler : String → Obj → Exec (World U) Obj)
    (exec_id : String) where
  -- A state whose record is completed returns the stored output, whatever the input; the handler is
  -- not called, no fuel is needed for a catch, and the world stays as it was.
  pub execute_state-replays :
      (fuel : ℕ) (g : Graph (World U)) (n : Node (World U)) (input : Obj) (w : World U)
      (r : StateRecord)
      → lookup (state_key exec_id n.name) w.memory.states ≡ some r
      → is_completed r.status ≡ true
      → execute_state rt (local_executor handler) exec_id (suc fuel) g n input w ≡ (ok r.output, w)
  unfolding execute_state recall branch
  execute_state-replays fuel g n input w r found done =
      let row =
        state_record rt (local_executor handler) exec_id n.name input 1
          (resume_time rt (local_executor handler) exec_id n w) in
      rw
        (
          write_ahead_state-terminal w.clock row w.memory (completed-terminal _ found done),
          get_state_output-found exec_id n.name w.memory r found done,
        )
        refl

  -- the handler returns an output in every world, and leaves the store alone
  abbrev pub Answers : String → Obj → Type 0
  Answers name input =
      (v : World U)
      → (out : Obj) × (v' : World U) × (handler name input v ≡ (ok out, v'))
        × (v'.memory ≡ v.memory)

  -- the first execution, and the record it leaves
  pub execute_state-first :
      (fuel : ℕ) (g : Graph (World U)) (n : Node (World U)) (input : Obj) (w : World U)
      (answers : Answers n.name input)
      → is_wait n.task_def.kind ≡ false
      → holds_completed (lookup (state_key exec_id n.name) w.memory.states) ≡ false
      → (w' : World U) × (r : StateRecord) × (v : World U) × (execute_state rt
            (local_executor handler)
            exec_id
            (suc fuel)
            g
            n
            input
            w
          ≡ (ok r.output, w'))
        × (lookup (state_key exec_id n.name) w'.memory.states ≡ some r)
        × (is_completed r.status ≡ true)
        × (r.output ≡ (answers v).0)
  unfolding execute_state work start finish apply_retry branch pure
  execute_state-first fuel g n input w answers plain fresh =
      let key = state_key exec_id n.name in
      let row = state_record rt (local_executor handler) exec_id n.name input 1 none in
      let written = record row { status = pending; created_at = w.clock; updated_at = w.clock } in
      let m1 = write_row key written w.memory in
      let started = record written { status = running; updated_at = w.clock } in
      let m2 = write_row key started m1 in
      let v = record w { memory = m2 } in
      let (out, last, answer, keeps) = answers v in
      let found = ap (λ m. lookup key m.states) keeps ∙ lookup-insert_self key started m1.states in
      let done = record started { status = completed; output = out; updated_at = last.clock } in
      (
        record last { memory = write_row key done last.memory },
        done,
        v,
        rw
            (
              plain,
              write_ahead_state-fresh w.clock row w.memory fresh,
              mark_running-found w.clock exec_id n.name m1
                  (lookup-insert_self key written w.memory.states),
              answer,
              complete_state-found last.clock exec_id n.name last.memory out found,
            )
            refl,
        lookup-insert_self key done last.memory.states,
        refl,
        refl,
      )

  -- A state that does not wait, is not completed, and whose handler returns an output without
  -- touching the store returns this output, and returns it again, whatever the input, without any
  -- change when it is executed a second time.
  pub execute_state-once :
      (fuel again : ℕ) (g : Graph (World U)) (n : Node (World U)) (input other : Obj) (w : World U)
      (out : Obj) (after : World U → World U)
      → is_wait n.task_def.kind ≡ false
      → holds_completed (lookup (state_key exec_id n.name) w.memory.states) ≡ false
      → ((v : World U) → handler n.name input v ≡ (ok out, after v))
      → ((v : World U) → (after v).memory ≡ v.memory)
      → let (r, w') = execute_state rt (local_executor handler) exec_id (suc fuel) g n input w in
        (r ≡ ok out)
        × (execute_state rt (local_executor handler) exec_id (suc again) g n other w'
            ≡ (ok out, w'))
  execute_state-once fuel again g n input other w out after plain fresh answers keeps =
      let (w', r, v, first, found, done, same) =
        execute_state-first fuel g n input w (λ v. (out, after v, answers v, keeps v)) plain
          fresh in
      rw (first, same)
        (refl, execute_state-replays again g n other w' r found done ∙ ap (λ o. (ok o, w')) same)
