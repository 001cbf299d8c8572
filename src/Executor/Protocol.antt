-- ===== src/Executor/Protocol.antt =====
-- Every execution keeps the write-ahead protocol.
use state_graph.Prelude.{String, ℕ, zero, suc, ◌≡◌, refl, eq_refl, Option, none, some, []}
use state_graph.Values.{Status, Error, Obj}
use state_graph.Exec.{Exec}
use state_graph.Store.{Time}
use state_graph.Graph.{Node, Graph, node, entry_node}
use state_graph.Executor.{
  LogLine, log_line, resume_time, catch_with, unless_cancelled, fail_run, Executor, Runtime,
  prepare_retry, retry_loop, apply_retry, dispatch_or_retry, work, finish, give_up, start, recall,
  execute_state, run_from, run, record_transition,
}
use state_graph.Executor.Trace.{
  Trace, Phase, idle, written, started, working, gave_up, phase_of, traced, traced_dispatcher,
  traced_runtime, wrote_ahead, marked_running, invoked, completed_state, noted, advance, announced,
}
use state_graph.Executor.Triple.{
  Cond, at, in_state, between, safe, Leads, IsBetween, to_safe, Triple, Triple-pure, Triple-raise,
  Triple-fuel, Triple-act, Triple-if, Triple-lifted, Triple-branch, Triple-then, Triple-inspect,
  Triple-try, Triple-result, Triple-noted, Triple-announced, Triple-failed, Triple-weaken,
  Triple-phases, Triple-enter, After-safe, Allows,
}

idle-between : Leads (at idle) between
idle-between p same = rw same tt

gave_up-between : (n : String) → Leads (at (gave_up n)) between
gave_up-between n p same = rw same tt

module _ {W : Type 0} (rt : Runtime W) (e : Executor W) (exec_id : String) where
  mark-Triple :
      (x : Cond) (n : String) (m : Exec W (Unit {0}))
      → Allows x (written n)
      → Triple x (at (written n)) (noted (marked_running n) m) (at (started n))
  mark-Triple x n m l = Triple-noted (written n) (started n) (marked_running n) m (rw eq_refl) l

  invoke-Triple :
      (n : String) (m : Exec W Obj)
      → Triple (in_state n) (at (started n)) (announced (invoked n) m) (at (working n))
  invoke-Triple n m = Triple-announced (started n) (working n) (invoked n) m (rw eq_refl) refl

  log-Triple :
      (n : String) (line : LogLine) (x c : Cond)
      → Triple x c (log_line (traced_runtime rt) (traced e) exec_id n line) c
  log-Triple n line x c = Triple-act _

  transition-Triple :
      (n : String) (from to : Status) (msg : String) (x c : Cond)
      → Triple x c (record_transition (traced_runtime rt) (traced e) exec_id n from to msg) c
  transition-Triple n from to msg x c = Triple-then (Triple-act _) (Triple-act _)

  start-Triple :
      (n : Node (W × Trace))
      → Triple safe
          (at (written n.name))
          (start (traced_runtime rt) (traced e) exec_id n)
          (at (started n.name))
  unfolding start
  start-Triple n = Triple-then (mark-Triple safe n.name _ tt) (transition-Triple n.name _ _ _ _ _)

  finish-Triple :
      (n : Node (W × Trace)) (output : Obj) (p : Phase)
      → advance p (completed_state n.name) ≡ some idle
      → Triple safe (at p) (finish (traced_runtime rt) (traced e) exec_id n output) between
  unfolding finish
  finish-Triple n output p h = Triple-weaken (at idle) between idle-between (
      Triple-then (Triple-noted p idle (completed_state n.name) _ h tt) (
        Triple-then (transition-Triple n.name _ _ _ _ _)
          (Triple-then (log-Triple n.name _ _ _) (Triple-pure output))))

  give_up-Triple :
      (n : Node (W × Trace)) (failure : Error)
      → Triple safe
          (in_state n.name)
          (give_up (traced_runtime rt) (traced e) exec_id n failure)
          between
  unfolding give_up
  give_up-Triple n failure = Triple-weaken (at (gave_up n.name)) between (gave_up-between n.name) (
      Triple-then (log-Triple n.name _ _ _) (
        Triple-then (Triple-failed n.name _ (to_safe (in_state n.name)))
          (transition-Triple n.name _ _ _ _ _)))

  prepare_retry-Triple :
      (n : Node (W × Trace)) (input : Obj) (attempt : ℕ) (last : Error)
      → Triple
          (in_state n.name)
          (in_state n.name)
          (prepare_retry (traced_runtime rt) (traced e) exec_id n input attempt last)
          (at (started n.name))
  unfolding prepare_retry
  prepare_retry-Triple n input attempt last = Triple-then (log-Triple n.name _ _ _) (
      Triple-then (Triple-failed n.name _ (λ p h. h)) (
        Triple-then (transition-Triple n.name _ _ _ _ _) (
          Triple-then
            (Triple-noted (gave_up n.name) (written n.name) (wrote_ahead n.name) _ refl refl)
            (Triple-then (mark-Triple _ n.name _ refl) (
              Triple-then (transition-Triple n.name _ _ _ _ _)
                (Triple-if _ _ _ (Triple-act _) (Triple-pure tt)))))))

  recall-Triple :
      (n : Node (W × Trace)) (failure : Error)
      → Triple safe between (recall (traced_runtime rt) (traced e) exec_id n failure) between
  unfolding recall
  recall-Triple n failure =
      Triple-if _ _ _ (Triple-lifted _ (to_safe between)) (Triple-raise failure (to_safe between))

  retry_loop-Triple :
      (left : ℕ) (n : Node (W × Trace)) (input : Obj) (attempt : ℕ) (last : Error)
      → Triple
          (in_state n.name)
          (in_state n.name)
          (retry_loop (traced_runtime rt) (traced e) exec_id left n input attempt last)
          (at (working n.name))
  unfolding retry_loop
  retry_loop-Triple zero n input attempt last = Triple-raise last (λ p h. h)
  retry_loop-Triple (suc left) n input attempt last =
      Triple-then (prepare_retry-Triple n input attempt last) (
        Triple-branch _ _ _ (invoke-Triple n.name _) Triple-pure
          (λ failure. retry_loop-Triple left n input (suc attempt) failure))

  apply_retry-Triple :
      (n : Node (W × Trace)) (input : Obj)
      → Triple
          (in_state n.name)
          (at (started n.name))
          (apply_retry (traced_runtime rt) (traced e) exec_id n input)
          (at (working n.name))
  unfolding apply_retry
  apply_retry-Triple n input =
      Triple-branch _ _ _ (invoke-Triple n.name _) Triple-pure
        (λ failure. retry_loop-Triple _ n input 2 failure)

  dispatch-Triple :
      (dispatcher : Option (String → String → String → Obj → Exec W Obj)) (n : Node (W × Trace))
      (input : Obj)
      → Triple
          (in_state n.name)
          (at (started n.name))
          (dispatch_or_retry
            (traced_runtime rt)
            (traced e)
            exec_id
            (traced_dispatcher dispatcher)
            n
            input)
          (at (working n.name))
  dispatch-Triple none n input = apply_retry-Triple n input
  dispatch-Triple (some dispatch) n input =
      Triple-if _ _ _ (invoke-Triple n.name _) (apply_retry-Triple n input)

  -- a state that waits is not invoked
  abbrev after_work : Option Time → String → Phase
  after_work none n = working n
  after_work (some _) n = started n

  work-Triple :
      (n : Node (W × Trace)) (input : Obj) (resume_at : Option Time)
      → Triple
          (in_state n.name)
          (at (started n.name))
          (work (traced_runtime rt) (traced e) exec_id n input resume_at)
          (at (after_work resume_at n.name))
  unfolding work
  work-Triple n input none = dispatch-Triple e.dispatcher n input
  work-Triple n input (some t) = Triple-then (Triple-act _) (Triple-pure [])

  completes :
      (resume_at : Option Time) (n : String)
      → advance (after_work resume_at n) (completed_state n) ≡ some idle
  completes none n = rw eq_refl
  completes (some t) n = rw eq_refl

  catch_with-Triple :
      (c : Option (Node (W × Trace))) (failure : Error)
      (run_catch : Node (W × Trace) → Exec (W × Trace) Obj)
      → ((n : Node (W × Trace)) → Triple safe between (run_catch n) between)
      → Triple safe between (catch_with c failure run_catch) between
  catch_with-Triple none failure run_catch h = Triple-raise failure (to_safe between)
  catch_with-Triple (some n) failure run_catch h = h n

  writes : (p : Phase) (n : String) → IsBetween p → advance p (wrote_ahead n) ≡ some (written n)
  writes idle n h = refl
  writes (gave_up m) n h = refl
  writes (written m) n h = absurd h
  writes (started m) n h = absurd h
  writes (working m) n h = absurd h

  execute_state-Triple :
      (fuel : ℕ) (g : Graph (W × Trace)) (n : Node (W × Trace)) (input : Obj)
      → Triple safe between
          (execute_state (traced_runtime rt) (traced e) exec_id fuel g n input)
          between
  unfolding execute_state
  execute_state-Triple zero g n input = Triple-fuel
  execute_state-Triple (suc fuel) g n input = Triple-then (log-Triple n.name _ _ _) (
      Triple-inspect _ λ s.
        let resume_at = resume_time (traced_runtime rt) (traced e) exec_id n s in
        Triple-phases λ p h.
          Triple-try p (written n.name) (wrote_ahead n.name) _ _ _ (writes p n.name h)
            (λ _. Triple-then (start-Triple n) (
              Triple-branch _ _ _ (work-Triple n input resume_at)
                (λ output. finish-Triple n output _ (completes resume_at n.name))
                (λ failure. Triple-then (give_up-Triple n failure) (
                  Triple-if _ _ _ (Triple-raise failure (to_safe between)) (
                    Triple-then (log-Triple n.name _ _ _) (
                      catch_with-Triple (node g n.catch) failure _
                        (λ c. execute_state-Triple fuel g c _)))))))
            (λ failure. Triple-enter p h (recall-Triple n failure)))

  fail_run-Triple :
      {A : Type 0} (failure : Error) {d : Cond}
      → Triple safe safe (fail_run (traced_runtime rt) (traced e) exec_id {A = A} failure) d
  fail_run-Triple failure = Triple-then (log-Triple "" _ _ _) (Triple-raise failure (λ p h. h))

  unless_cancelled-Triple :
      (c : Option Error) (m : Exec (W × Trace) (Unit {0}))
      → Triple safe between m between
      → Triple safe between (unless_cancelled c m) between
  unless_cancelled-Triple none m h = h
  unless_cancelled-Triple (some failure) m h = Triple-raise failure (to_safe between)

  run_from-Triple :
      (depth fuel : ℕ) (g : Graph (W × Trace)) (n : Option (Node (W × Trace))) (input : Obj)
      → Triple safe between
          (run_from (traced_runtime rt) (traced e) exec_id depth fuel g n input)
          between
  unfolding run_from
  run_from-Triple depth fuel g none input = log-Triple "" _ _ _
  run_from-Triple depth zero g (some n) input = Triple-fuel
  run_from-Triple depth (suc fuel) g (some n) input = Triple-inspect _ λ s.
      unless_cancelled-Triple (rt.cancelled s.0) _ (
        Triple-branch _ _ _ (execute_state-Triple depth g n input)
          (λ output.
            Triple-branch _ _ _ (Triple-result _ (to_safe between))
              (λ n'. run_from-Triple depth fuel g n' output) (λ failure. fail_run-Triple failure))
          (λ failure. fail_run-Triple failure))

-- An execution from an empty trace, whatever the store, the handlers, the dispatcher, the callbacks,
-- the cancellation and the fuel do, and however it ends, leaves a trace that keeps the protocol: a
-- state is marked running only right after it was written ahead, and invoked only right after it was
-- marked running; the next event after an invocation, if any, is its completion or its own failure;
-- and it is the state in progress, under its name, that is marked, invoked, completed or failed.
pub run-keeps_protocol :
    {W : Type 0} (rt : Runtime W) (e : Executor W) (exec_id : String) (depth fuel : ℕ)
    (g : Graph (W × Trace)) (input : Obj) (w : W)
    → (p : Phase) × (phase_of
          (run (traced_runtime rt) (traced e) exec_id depth fuel g input (w, [])).1.1
        ≡ some p)
unfolding run phase_of
run-keeps_protocol rt e exec_id depth fuel g input w =
    let keeps =
      Triple-then (log-Triple rt e exec_id "" _ safe between)
        (run_from-Triple rt e exec_id depth fuel g (entry_node g) input) in
    let (p, kept, _) = After-safe _ _ _ (keeps.run (w, []) (idle, refl, tt)) in (p, kept)
