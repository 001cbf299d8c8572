-- ===== src/Executor/Completes.antt =====
-- Runs that come to their end.
use state_graph.Prelude.{
  String, ℕ, zero, suc, ◌<◌, ◌≡◌, refl, true, false, Option, none, some, arith, Bool-cases, inl,
  inr,
}
use state_graph.Dict.{lookup}
use state_graph.Values.{Obj}
use state_graph.Exec.{ok, Exec, branch}
use state_graph.Workflow.{is_wait, is_choice}
use state_graph.Graph.{Node, Graph, node, entry_node, next}
use state_graph.Store.{StateRecord}
use state_graph.Store.Memory.{state_key, is_completed, holds_completed}
use state_graph.Store.Memory.Services.{World}
use state_graph.InProcess.{local_executor}
use state_graph.Executor.{Runtime, execute_state, run_from, run, choice_key}
use state_graph.Executor.Replay.{Answers, execute_state-first, execute_state-replays}

-- a graph without waits, choices and cycles, in which every next is found
pub record Straight {W : Type 0} (g : Graph W) (rank : String → ℕ) : Type 0 where
  pub no_wait : (k : String) (n : Node W) → node g k ≡ some n → is_wait n.task_def.kind ≡ false
  pub no_choice : (k : String) (n : Node W) → node g k ≡ some n → is_choice n.task_def.kind ≡ false
  pub leads :
      (k : String) (n : Node W)
      → node g k ≡ some n
      → n.terminal ≡ false
      → (m : Node W) × (node g n.next ≡ some m) × (rank n.next < rank k)

found-of_completed :
    (o : Option StateRecord)
    → holds_completed o ≡ true
    → (r : StateRecord) × (o ≡ some r) × (is_completed r.status ≡ true)
found-of_completed none h = cc
found-of_completed (some r) h = (r, refl, h)

module _ {W : Type 0} (g : Graph W) (n : Node W) (key : String) where
  next-terminal : n.terminal ≡ true → next g n key ≡ ok none
  unfolding next
  next-terminal h = rw h refl

  next-plain :
      (m : Node W)
      → n.terminal ≡ false
      → is_choice n.task_def.kind ≡ false
      → node g n.next ≡ some m
      → next g n key ≡ ok (some m)
  unfolding next node
  next-plain m h p f = rw (h, p, f, next) refl

module _ {U : Type 0} (rt : Runtime (World U)) (handler : String → Obj → Exec (World U) Obj)
    (exec_id : String)
    (answers : (name : String) (input : Obj) → Answers rt handler exec_id name input)
    (uncancelled : (w : World U) → rt.cancelled w ≡ none) where
  execute_state-ok :
      (depth : ℕ) (g : Graph (World U)) (n : Node (World U)) (input : Obj) (w : World U)
      → is_wait n.task_def.kind ≡ false
      → (out : Obj) × (w' : World U) × (execute_state rt
            (local_executor handler)
            exec_id
            (suc depth)
            g
            n
            input
            w
          ≡ (ok out, w'))
  execute_state-ok depth g n input w plain =
      elim (Bool-cases (holds_completed (lookup (state_key exec_id n.name) w.memory.states))) [
        | inl done ↦
            let (r, found, c) = found-of_completed _ done in
            (r.output, w, execute_state-replays rt handler exec_id depth g n input w r found c)
        | inr fresh ↦
            let (w', r, v, first, _, _, _) =
              execute_state-first rt handler exec_id depth g n input w (answers n.name input) plain
                fresh in
            (r.output, w', first)
      ]

  run_from-ok :
      (depth fuel : ℕ) (g : Graph (World U)) (rank : String → ℕ) (straight : Straight g rank)
      (k : String) (n : Node (World U)) (input : Obj) (w : World U)
      → node g k ≡ some n
      → rank k < fuel
      → (run_from rt (local_executor handler) exec_id (suc depth) fuel g (some n) input w).0 ≡ ok tt
  unfolding run_from branch
  run_from-ok depth zero g rank straight k n input w found low = absurd (omega (arith, low))
  run_from-ok depth (suc fuel) g rank straight k n input w found low =
      let (out, w', e) = execute_state-ok depth g n input w (straight.no_wait k n found) in
      elim (Bool-cases n.terminal) [
        | inl ends ↦ rw (uncancelled w, e, next-terminal g n (choice_key n out) ends) refl
        | inr goes ↦
            let (m, there, lower) = straight.leads k n found goes in
            rw
              (
                uncancelled w,
                e,
                next-plain g n (choice_key n out) m goes (straight.no_choice k n found) there,
              )
              (run_from-ok depth fuel g rank straight n.next m out w' there
                (omega (arith, low, lower)))
      ]

-- On the memory store, whatever it holds, a run through a graph without waits, choices and cycles, in
-- which every next is found, returns nil with more fuel than the rank of the entry, if the handler
-- always returns an output and leaves the store alone, and nobody cancels the run.
pub run-completes :
    {U : Type 0} (rt : Runtime (World U)) (handler : String → Obj → Exec (World U) Obj)
    (exec_id : String)
    (answers : (name : String) (input : Obj) → Answers rt handler exec_id name input)
    (uncancelled : (w : World U) → rt.cancelled w ≡ none) (depth fuel : ℕ) (g : Graph (World U))
    (rank : String → ℕ) (straight : Straight g rank) (n : Node (World U)) (input : Obj)
    (w : World U)
    → node g g.entry ≡ some n
    → rank g.entry < fuel
    → (run rt (local_executor handler) exec_id (suc depth) fuel g input w).0 ≡ ok tt
unfolding run branch entry_node
run-completes rt handler exec_id answers uncancelled depth fuel g rank straight n input w found
      low =
    rw found (
      run_from-ok rt handler exec_id answers uncancelled depth fuel g rank straight g.entry n input
        w found low)
