-- ===== src/Scenarios/Workflows.antt =====
-- A workflow of two steps, its graphs, and its messages.
use mathlib.Core.List.{Memᴰ}
use mathlib.Core.Option.{some-injective}
use state_graph.Prelude.{
  String, ℕ, pos, ◌≡◌, refl, ◌⊎◌, ◌↔◌, subst, sym, ◌∙◌, inl, inr, true, false, Option, none, some,
  [], ◌∷◌, arith, ◌==◌, eq_iff, Bool-cases, if◌then◌else◌, ◌<◌,
}
use state_graph.Dict.{lookup, insert}
use state_graph.Values.{Obj, Error}
use state_graph.Exec.{ok, err, Exec, pure}
use state_graph.Exec.Returns.{Returns, Returns-pure}
use state_graph.Workflow.{
  TaskDef, StepBuilder, Workflow, new, task, flow, blank, task_state, step, step_next, step_end,
  is_choice,
}
use state_graph.Workflow.Validate.{validate, check_names, check_tasks, check_steps}
use state_graph.Workflow.WellFormed.{WellFormed, validate_iff}
use state_graph.Graph.{
  Node, Graph, WorkflowState, WorkflowStep, WorkflowGraph, node_of, node, next, build,
  build_from_proto, no_op,
}
use state_graph.Graph.Build.{FromStep, build_sound}
use state_graph.Graph.Next.{next_total, AllStepped, EndsLead}
use state_graph.Graph.Proto.{build_from_proto-plain}
use state_graph.Graph.Services.{build_from_proto-invoking}
use state_graph.Local.{LocalNode, LocalGraph, LocalRuntime, run_local_graph, build_local_graph}
use state_graph.Local.Agrees.{build_local_graph-agrees, locals_of}
use state_graph.Local.Returns.{HandlersReturn}
use state_graph.Local.Terminates.{Ranked, run_local_graph-Returns}

abbrev echo : Obj → Exec ℕ Obj
echo input = pure input

abbrev check_def : TaskDef ℕ
check_def = record (blank "check" task_state) { fn = some echo }

abbrev pay_def : TaskDef ℕ
pay_def = record (blank "pay" task_state) { fn = some echo }

abbrev check_step : StepBuilder
check_step = step_next "pay" (step "check")

abbrev pay_step : StepBuilder
pay_step = step_end (step "pay")

abbrev order : Workflow ℕ
order =
    flow (check_step ∷ pay_step ∷ [])
      (task "pay" (some echo) (task "check" (some echo) (new "order")))

abbrev check_node : Node ℕ
check_node = node_of check_step check_def

abbrev pay_node : Node ℕ
pay_node = node_of pay_step pay_def

abbrev order_graph : Graph ℕ
order_graph = record { nodes = ("check", check_node) ∷ ("pay", pay_node) ∷ []; entry = "check" }

order-valid : validate order ≡ none
unfolding validate flow task new lookup insert check_names check_tasks check_steps
order-valid = refl

order-built : build order ≡ ok order_graph
unfolding build validate flow task new lookup insert node_of check_names check_tasks check_steps
order-built = refl

check-found : node order_graph "check" ≡ some check_node
unfolding node lookup
check-found = refl

order-AllStepped : AllStepped order
unfolding flow task new lookup insert
order-AllStepped k h = elim (Bool-cases ("check" == k)) [
  | inl is_check ↦ (check_step, Memᴰ.head refl, ground (arith, eq_iff "check" k))
  | inr not_check ↦
      (pay_step, Memᴰ.tail (Memᴰ.head refl), ground (arith, eq_iff "check" k, eq_iff "pay" k))
]

order-EndsLead : EndsLead order.steps
unfolding flow
order-EndsLead = (
  (λ h e. ground (arith, eq_iff "pay" "")),
  ((λ h e. ground (arith, eq_iff "__succeed__" "")), tt),
)

validate_iff_example : (validate order ≡ none) ↔ WellFormed order
validate_iff_example = validate_iff order

build_sound_example : FromStep order order.steps "check" check_node
build_sound_example = build_sound order order-built "check" check_node check-found

next_total_example : (m : Option (Node ℕ)) × (next order_graph check_node "" ≡ ok m)
unfolding node_of
next_total_example =
    next_total order order-built order-EndsLead order-AllStepped "check" "" check_node check-found
      refl

build_local_graph-agrees_example :
    build_local_graph order
    ≡ ok (record { entry = order_graph.entry; nodes = locals_of order_graph.nodes })
build_local_graph-agrees_example = build_local_graph-agrees order order-built

abbrev order_local : LocalGraph ℕ
order_local = record { entry = "check"; nodes = locals_of order_graph.nodes }

-- "check" comes before everything else
abbrev position : String → ℕ
position k = if k == "check" then 1 else 0

order_local-nodes :
    (k : String) (n : LocalNode ℕ)
    → lookup k order_local.nodes ≡ some n
    → (n.catch ≡ "")
      × (n.task.choice_fn ≡ none)
      × (n.task.fn ≡ some echo)
      × (((k ≡ "check") × (n.next ≡ "pay")) ⊎ (n.next ≡ "__succeed__"))
unfolding lookup node_of
order_local-nodes k n h = ground (arith, eq_iff "check" k, eq_iff "pay" k)

order_local-Ranked : Ranked order_local position
unfolding lookup node_of
order_local-Ranked = record {
  by_next = λ k n found plain known. elim (order_local-nodes k n found).3 [
    | inl (here, next) ↦ rw (here, next) (omega arith)
    | inr next ↦ absurd (cc (rw next at known))
  ];
  by_choice =
      λ k n x found chosen known. absurd (cc (chosen.fn_eq, (order_local-nodes k n found).1));
  by_catch = λ k n found catches. absurd (catches (order_local-nodes k n found).0);
}

order_local-HandlersReturn :
    (k : String) (n : LocalNode ℕ) → lookup k order_local.nodes ≡ some n → HandlersReturn n.task
order_local-HandlersReturn k n found =
    let (_, chooses, handles, _) = order_local-nodes k n found in
    record {
      fn_returns = λ fn e input.
          subst (λ f. Returns (f input)) (some-injective echo fn (sym handles ∙ e))
            (Returns-pure input);
      choice_returns = λ fn e input. absurd (cc (chooses, e));
    }

abbrev no_wait : LocalRuntime ℕ
no_wait = record { message = λ e. "error"; pause = λ d. pure tt }

entry_low : position "check" < 2
entry_low = omega arith

run_local_graph-Returns_example : Returns (run_local_graph no_wait 2 order_local [])
run_local_graph-Returns_example =
    run_local_graph-Returns no_wait (λ d. Returns-pure tt) order_local position order_local-Ranked
      order_local-HandlersReturn 2 [] entry_low

-- the message of a workflow with a service
abbrev charge_state : WorkflowState
charge_state = record {
  name = "charge";
  kind = "task";
  service_target = "payments";
  wait_seconds = pos 0;
  catch_state = "";
}

abbrev charge_step : WorkflowStep
charge_step = record { name = "charge"; next = ""; catch = ""; is_end = true }

abbrev charge_graph : WorkflowGraph
charge_graph = record {
  name = "billing";
  states = charge_state ∷ [];
  steps = charge_step ∷ [];
  image = "";
}

build_from_proto-invoking_example : (e : Error) × (build_from_proto {W = ℕ} charge_graph ≡ err e)
build_from_proto-invoking_example =
    build_from_proto-invoking charge_graph charge_state (Memᴰ.head refl)
      (λ e. ground (arith, eq_iff "task" "wait")) (λ e. ground (arith, eq_iff "payments" ""))

-- the message of a workflow with one task
abbrev ship_state : WorkflowState
ship_state = record {
  name = "ship";
  kind = "choice";
  service_target = "";
  wait_seconds = pos 0;
  catch_state = "";
}

abbrev ship_graph : WorkflowGraph
ship_graph = record {
  name = "shipping";
  states = ship_state ∷ [];
  steps = record { name = "ship"; next = ""; catch = ""; is_end = true } ∷ [];
  image = "";
}

abbrev ship_node : Node ℕ
ship_node = node_of (step_end (step "ship")) (record (blank "ship" task_state) { fn = some no_op })

abbrev ship_built : Graph ℕ
ship_built = record { nodes = ("ship", ship_node) ∷ []; entry = "ship" }

ship-built : build_from_proto ship_graph ≡ ok ship_built
unfolding build_from_proto build validate flow task new lookup insert node_of check_names
    check_tasks check_steps
ship-built = refl

ship-found : node ship_built "ship" ≡ some ship_node
unfolding node lookup
ship-found = refl

build_from_proto-plain_example :
    (ship_node.retry ≡ none) × (is_choice ship_node.task_def.kind ≡ false)
build_from_proto-plain_example =
    build_from_proto-plain ship_graph ship-built "ship" ship_node ship-found
