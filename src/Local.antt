-- ===== src/Local.antt =====
-- pkg/kflow/graph_json.go, the executor that `RunLocal` of the SDK uses (the wire format: Local/Json).
-- The loop may go on for ever, so it takes fuel. Maps are values here, so `cloneInput` is the identity.
pub mod Json
pub mod Agrees
pub mod Returns
pub mod Terminates
use state_graph.Prelude.{
  String, ℕ, zero, suc, ℤ, pos, pos_part, scale, ◌-◌, Bool, true, false, ◌||◌, ◌==◌, Option, none,
  some, List, [], ◌∷◌, ltb, if◌then◌else◌,
}
use state_graph.Dict.{Dict, lookup, insert}
use state_graph.Values.{
  Value, str, Obj, Error, no_entry_point, unknown_step, unknown_current, no_inline_handler,
  choice_unset, not_in_flow, state_failed,
}
use state_graph.Exec.{
  Result, ok, err, Exec, pure, raise, panic, of_result, branch, ◌>>=◌, ◌>>◌, out_of_fuel,
}
use state_graph.Workflow.{
  TaskDef, StepBuilder, Workflow, RetryPolicy, HandlerFunc, ChoiceFunc, is_choice, is_wait,
  is_sentinel,
}
use state_graph.Workflow.Validate.{is_set}
use state_graph.Graph.{catch_or, retry_or}

pub record LocalNode (W : Type 0) : Type 0 where
  pub name : String
  pub task : TaskDef W
  pub next : String
  pub catch : String
  pub retry : Option RetryPolicy

pub record LocalGraph (W : Type 0) : Type 0 where
  pub entry : String
  pub nodes : Dict (LocalNode W)

-- What the code uses of `context`, `errors` and `time`: the text of an error, and the `select` on
-- ctx.Done() and time.After(d), which returns ctx.Err() or nil.
pub record LocalRuntime (W : Type 0) : Type 0 where
  pub message : Error → String
  pub pause : ℤ → Exec W (Unit {0})

-- output["__choice__"].(string)
abbrev pub choice_of : String → Option Value → Result String
choice_of name (some (str s)) = ok s
choice_of name _ = err (choice_unset name)

module _ {W : Type 0} where
  unfoldable pub local_node_of : StepBuilder → TaskDef W → LocalNode W
  local_node_of s td = record {
    name = s.name;
    task = td;
    next = s.next;
    catch = catch_or s.catch td.catch;
    retry = retry_or s.retry td.retry;
  }

  -- the loop of buildLocalGraph, over the steps that are left
  unfoldable pub build_local_nodes :
      Dict (TaskDef W) → List StepBuilder → Dict (LocalNode W) → Result (Dict (LocalNode W))
  build_local_nodes tasks [] nodes = ok nodes
  build_local_nodes tasks (s ∷ steps) nodes = elim (lookup s.name tasks) [
    | none ↦ err (unknown_step s.name)
    | some td ↦ build_local_nodes tasks steps (insert s.name (local_node_of s td) nodes)
  ]

  abbrev pub with_local_entry : String → Result (Dict (LocalNode W)) → Result (LocalGraph W)
  with_local_entry entry (ok nodes) = ok (record { entry = entry; nodes = nodes })
  with_local_entry entry (err e) = err e
  with_local_entry entry Result.panics = Result.panics
  with_local_entry entry Result.running = Result.running

  abbrev pub build_local_steps : Dict (TaskDef W) → List StepBuilder → Result (LocalGraph W)
  build_local_steps tasks [] = err no_entry_point
  build_local_steps tasks (s ∷ steps) =
      with_local_entry s.name (build_local_nodes tasks (s ∷ steps) [])

  unfoldable pub build_local_graph : Workflow W → Result (LocalGraph W)
  unfolding build_local_nodes
  build_local_graph w = build_local_steps w.tasks w.steps

  unfoldable pub next_local_node : LocalNode W → Obj → Result String
  next_local_node n output =
      if is_choice n.task.kind then choice_of n.name (lookup "__choice__" output) else ok n.next

abbrev pub local_attempts : Option RetryPolicy → ℕ
local_attempts none = 1
local_attempts (some p) = if ltb 0 (pos_part p.max_attempts) then pos_part p.max_attempts else 1

abbrev pub local_backoff : Option RetryPolicy → ℤ
local_backoff none = pos 0
local_backoff (some p) = if ltb 0 (pos_part p.max_attempts) then p.backoff_seconds else pos 0

module _ {W : Type 0} (rt : LocalRuntime W) where
  abbrev pub back_off : Option RetryPolicy → Exec W (Unit {0})
  back_off rp =
      if ltb 0 (pos_part (local_backoff rp))
      then rt.pause (scale 1000000000 (local_backoff rp))
      else pure tt

  -- the loop of runWithRetry from its second round, with the number of rounds left
  unfoldable pub try_again : ℕ → HandlerFunc W → Obj → Option RetryPolicy → Error → Exec W Obj
  try_again zero fn input rp last = raise last
  try_again (suc left) fn input rp last = do
    back_off rp
    branch (fn input) pure (λ failure. try_again left fn input rp failure)

  unfoldable pub run_with_retry : HandlerFunc W → Obj → Option RetryPolicy → Exec W Obj
  unfolding try_again
  run_with_retry fn input rp =
      branch (fn input) pure (λ failure. try_again (local_attempts rp - 1) fn input rp failure)

  abbrev pub run_choice : Option (ChoiceFunc W) → Obj → Exec W Obj
  run_choice none input = panic
  run_choice (some fn) input = do next ← fn input; pure (insert "__choice__" (str next) input)

  abbrev pub run_task : Option (HandlerFunc W) → LocalNode W → Obj → Exec W Obj
  run_task none n input = raise (no_inline_handler n.task.name)
  run_task (some fn) n input = run_with_retry fn input n.retry

  unfoldable pub run_local_state : LocalNode W → Obj → Exec W Obj
  unfolding run_with_retry
  run_local_state n input =
      if is_wait n.task.kind
      then (do rt.pause n.task.wait_dur; pure input)
      else if is_choice n.task.kind
      then run_choice n.task.choice_fn input
      else run_task n.task.fn n input

  abbrev pub at_node :
      Option (LocalNode W) → String → (LocalNode W → Exec W (Unit {0})) → Exec W (Unit {0})
  at_node none current body = raise (unknown_current current)
  at_node (some n) current body = body n

  -- what runLocalGraph does with the name of the next state
  abbrev pub go_on : LocalGraph W → String → String → Exec W (Unit {0}) → Exec W (Unit {0})
  go_on g current next again =
      if next == "" || is_sentinel next
      then pure tt
      else if is_set (lookup next g.nodes)
      then again
      else raise (not_in_flow current next)

  -- the loop of runLocalGraph, from the state `current`
  unfoldable pub local_loop : ℕ → LocalGraph W → String → Obj → Exec W (Unit {0})
  unfolding run_local_state next_local_node
  local_loop zero g current input = out_of_fuel
  local_loop (suc fuel) g current input = at_node (lookup current g.nodes) current λ n.
      branch (run_local_state n input)
        (λ output. do
          next ← of_result (next_local_node n output)
          go_on g current next (local_loop fuel g next output))
        (λ failure.
          if n.catch == ""
          then raise (state_failed current failure)
          else local_loop fuel g n.catch (insert "_error" (str (rt.message failure)) input))

  unfoldable pub run_local_graph : ℕ → LocalGraph W → Obj → Exec W (Unit {0})
  unfolding local_loop
  run_local_graph fuel g input = local_loop fuel g g.entry input
