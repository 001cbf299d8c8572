-- ===== src/Local/Returns.antt =====
-- The states of the SDK's executor return.
use state_graph.Prelude.{ℕ, ℤ, zero, suc, ◌≡◌, refl, Option, none, some}
use state_graph.Values.{Error, Obj}
use state_graph.Exec.Returns.{
  Returns, Returns-pure, Returns-raise, Returns-panic, Returns-if, Returns-branch, Returns-then,
}
use state_graph.Workflow.{HandlerFunc, RetryPolicy, TaskDef, ChoiceFunc}
use state_graph.Local.{
  LocalNode, LocalRuntime, back_off, try_again, run_with_retry, run_choice, run_task,
  run_local_state,
}

module _ {W : Type 0} where
  -- the functions of a task return
  pub record HandlersReturn (td : TaskDef W) : Type 0 where
    pub fn_returns : (fn : HandlerFunc W) → td.fn ≡ some fn → (input : Obj) → Returns (fn input)
    pub choice_returns :
        (fn : ChoiceFunc W) → td.choice_fn ≡ some fn → (input : Obj) → Returns (fn input)

  module _ (rt : LocalRuntime W) (pauses : (d : ℤ) → Returns (rt.pause d)) where
    back_off-Returns : (rp : Option RetryPolicy) → Returns (back_off rt rp)
    back_off-Returns rp = Returns-if _ (pauses _) (Returns-pure tt)

    try_again-Returns :
        (left : ℕ) (fn : HandlerFunc W) (input : Obj) (rp : Option RetryPolicy) (last : Error)
        → Returns (fn input)
        → Returns (try_again rt left fn input rp last)
    unfolding try_again
    try_again-Returns zero fn input rp last h = Returns-raise last
    try_again-Returns (suc left) fn input rp last h = Returns-then (back_off-Returns rp) (
        Returns-branch _ _ _ h (λ a _. Returns-pure a)
          (λ failure. try_again-Returns left fn input rp failure h))

    run_with_retry-Returns :
        (fn : HandlerFunc W) (input : Obj) (rp : Option RetryPolicy)
        → Returns (fn input)
        → Returns (run_with_retry rt fn input rp)
    unfolding run_with_retry
    run_with_retry-Returns fn input rp h =
        Returns-branch _ _ _ h (λ a _. Returns-pure a)
          (λ failure. try_again-Returns _ fn input rp failure h)

    run_choice-Returns :
        (fn : Option (ChoiceFunc W)) (input : Obj)
        → ((f : ChoiceFunc W) → fn ≡ some f → Returns (f input))
        → Returns (run_choice rt fn input)
    run_choice-Returns none input h = Returns-panic
    run_choice-Returns (some f) input h =
        Returns-branch _ _ _ (h f refl) (λ a _. Returns-pure _) (λ e. Returns-raise e)

    run_task-Returns :
        (fn : Option (HandlerFunc W)) (n : LocalNode W) (input : Obj)
        → ((f : HandlerFunc W) → fn ≡ some f → Returns (f input))
        → Returns (run_task rt fn n input)
    run_task-Returns none n input h = Returns-raise _
    run_task-Returns (some f) n input h = run_with_retry-Returns f input n.retry (h f refl)

    pub run_local_state-Returns :
        (n : LocalNode W) (input : Obj)
        → HandlersReturn n.task
        → Returns (run_local_state rt n input)
    unfolding run_local_state
    run_local_state-Returns n input h =
        Returns-if _ (Returns-then (pauses _) (Returns-pure input)) (
          Returns-if _
            (run_choice-Returns n.task.choice_fn input (λ f e. h.choice_returns f e input))
            (run_task-Returns n.task.fn n input (λ f e. h.fn_returns f e input)))
