-- ===== src/Scenarios/Runs.antt =====
-- Runs of the executor on a memory store, with a handler that fails twice.
use mathlib.Core.Option.{some-injective}
use state_graph.Prelude.{
  inl, inr, sym, ◌==◌, Bool-cases, String, ℕ, suc, pos, ◌+◌, ◌-◌, ◌≡◌, refl, ◌<◌, true, false, none,
  some, [], ◌∷◌, arith, ltb, if◌then◌else◌,
}
use state_graph.Dict.{lookup}
use state_graph.Values.{Obj, other, running, external}
use state_graph.Exec.{Result, ok, err, Exec}
use state_graph.Workflow.{blank, task_state}
use state_graph.Graph.{Node, Graph, node}
use state_graph.Store.{StateRecord}
use state_graph.Executor.Completes.{Straight, run-completes}
use state_graph.Store.Memory.{new_memory_store, state_key, holds_completed}
use state_graph.Store.Memory.Services.{World}
use state_graph.InProcess.{local_executor}
use state_graph.Executor.{Runtime, apply_retry, max_attempts, execute_state, run}
use state_graph.Executor.Trace.{Phase, phase_of, traced, traced_runtime}
use state_graph.Executor.Retry.{
  IsQuiet, IsStarted, scheduled, AllFail, apply_retry-succeeds, apply_retry-gives_up,
}
use state_graph.Executor.Replay.{execute_state-once}
use state_graph.Executor.Protocol.{run-keeps_protocol}

abbrev pub instant : Runtime (World ℕ)
instant = record {
  message = λ e. "error";
  cancelled = λ w. none;
  time_after = λ d w. w.clock;
  sleep_until = λ t w. w;
  sleep = λ d w. w;
}

instant-IsQuiet : IsQuiet instant
instant-IsQuiet = record { sleep_memory = λ d w. refl; sleep_user = λ d w. refl }

abbrev pub paid : Obj
paid = ("paid", other 1) ∷ []

-- down at the first two calls
abbrev flaky : ℕ → Result Obj
flaky i = if ltb i 2 then err (external "down") else ok paid

abbrev charge_node : {W : Type 0} → Node W
charge_node = record {
  name = "charge";
  task_def = blank "charge" task_state;
  next = "__succeed__";
  catch = "";
  retry = some (record { max_attempts = pos 3; backoff_seconds = pos 1 });
  terminal = true;
}

abbrev hasty_node : Node (World ℕ)
hasty_node = record charge_node {
  retry = some (record { max_attempts = pos 2; backoff_seconds = pos 0 });
}

abbrev charge_graph : {W : Type 0} → Graph W
charge_graph = record { nodes = ("charge", charge_node) ∷ []; entry = "charge" }

abbrev charge_row : StateRecord
charge_row = record {
  execution_id = "e1";
  state_name = "charge";
  status = running;
  input = some [];
  output = paid;
  error = "";
  attempt = 1;
  resume_at = none;
  created_at = 0;
  updated_at = 0;
}

abbrev pub empty_world : World ℕ
empty_world = record { memory = new_memory_store; clock = 5; user = 0 }

abbrev world_with : StateRecord → World ℕ
world_with row = record empty_world {
  memory = record new_memory_store { states = (state_key "e1" "charge", row) ∷ [] };
}

row-found :
    (row : StateRecord) → lookup (state_key "e1" "charge") (world_with row).memory.states ≡ some row
unfolding lookup state_key
row-found row = refl

charge-IsStarted : IsStarted (state_key "e1" "charge") (world_with charge_row)
charge-IsStarted = record { row = charge_row; found = row-found charge_row; status = refl }

flaky-AllFail : AllFail flaky 0 2
flaky-AllFail i low = (external "down", ground (arith, low))

run-keeps_protocol_example :
    (p : Phase) × (phase_of
        (run
          (traced_runtime instant)
          (traced (local_executor (scheduled flaky)))
          "e1"
          3
          3
          charge_graph
          []
          (empty_world, [])).1.1
      ≡ some p)
run-keeps_protocol_example =
    run-keeps_protocol instant (local_executor (scheduled flaky)) "e1" 3 3 charge_graph []
      empty_world

three_rounds : 2 < max_attempts (charge_node {W = World ℕ}).retry
three_rounds = omega arith

apply_retry-succeeds_example :
    let (r, w') =
      apply_retry instant
        (local_executor (scheduled flaky))
        "e1"
        charge_node
        []
        (world_with charge_row) in
    (r ≡ ok paid) × (w'.user ≡ suc (0 + 2))
apply_retry-succeeds_example =
    apply_retry-succeeds instant instant-IsQuiet flaky "e1" 2 charge_node [] (world_with charge_row)
      paid charge-IsStarted three_rounds flaky-AllFail refl

apply_retry-gives_up_example :
    let (r, w') =
      apply_retry instant
        (local_executor (scheduled flaky))
        "e1"
        hasty_node
        []
        (world_with charge_row) in
    (r ≡ flaky (0 + (2 - 1))) × (w'.user ≡ 0 + 2)
apply_retry-gives_up_example =
    apply_retry-gives_up instant instant-IsQuiet flaky "e1" hasty_node [] (world_with charge_row)
      charge-IsStarted flaky-AllFail

abbrev steady : String → Obj → Exec (World ℕ) Obj
steady name input w = (ok paid, record w { user = suc w.user })

fresh : holds_completed (lookup (state_key "e1" "charge") empty_world.memory.states) ≡ false
unfolding lookup
fresh = refl

execute_state-once_example :
    let (r, w') =
      execute_state instant
        (local_executor steady)
        "e1"
        2
        charge_graph
        charge_node
        []
        empty_world in
    (r ≡ ok paid)
    × (execute_state instant (local_executor steady) "e1" 1 charge_graph charge_node paid w'
        ≡ (ok paid, w'))
execute_state-once_example =
    execute_state-once instant steady "e1" 1 0 charge_graph charge_node [] paid empty_world paid
      (λ v. record v { user = suc v.user }) refl fresh (λ v. refl) (λ v. refl)

charge-found : node charge_graph "charge" ≡ some (charge_node {W = World ℕ})
unfolding node lookup
charge-found = refl

charge-only :
    (k : String) (n : Node (World ℕ)) → node charge_graph k ≡ some n → n ≡ charge_node {W = World ℕ}
unfolding node lookup
charge-only k n found = elim (Bool-cases ("charge" == k)) [
  | inl e ↦ some-injective n charge_node (sym (rw e at found))
  | inr e ↦ cc (rw e at found)
]

charge-Straight : Straight {W = World ℕ} charge_graph (λ k. 0)
charge-Straight = record {
  no_wait = λ k n found. rw (charge-only k n found) refl;
  no_choice = λ k n found. rw (charge-only k n found) refl;
  leads = λ k n found goes. absurd (true_not_false (rw (charge-only k n found) at goes));
}
  where
    true_not_false : true ≡ false → ⊥
    true_not_false h = cc

run-completes_example :
    (run instant (local_executor steady) "e1" 1 1 charge_graph [] empty_world).0 ≡ ok tt
run-completes_example =
    run-completes instant steady "e1"
      (λ name input v. (paid, record v { user = suc v.user }, refl, refl)) (λ w. refl) 0 1
      charge_graph (λ k. 0) charge-Straight charge_node [] empty_world charge-found (omega arith)
