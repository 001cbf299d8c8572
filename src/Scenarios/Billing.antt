-- ===== src/Scenarios/Billing.antt =====
-- A local run of the workflow of one task.
use state_graph.Prelude.{String, ℕ, ◌≡◌, refl, none, some, [], ◌∷◌, ◌==◌, Bool-cases, inl, inr}
use state_graph.Dict.{lookup, insert}
use state_graph.Values.{Obj, handler_unknown}
use state_graph.Exec.{ok, Exec, pure}
use state_graph.Exec.Keeps.{Keeps, Keeps-pure, Keeps-raise}
use state_graph.Workflow.{Workflow, blank, task_state, new, task, flow, step, step_end}
use state_graph.Workflow.Validate.{validate, check_names, check_tasks, check_steps}
use state_graph.Graph.{Graph, node_of, build}
use state_graph.Store.Memory.Services.{World}
use state_graph.InProcess.{inline_handler, run_local}
use state_graph.InProcess.Outcome.{Tells, status_of, executions_of, run_local-Tells}
use state_graph.Scenarios.Runs.{instant, paid, empty_world}

abbrev settle : Obj → Exec (World ℕ) Obj
settle input = pure paid

abbrev billing : Workflow (World ℕ)
billing = flow (step_end (step "charge") ∷ []) (task "charge" (some settle) (new "billing"))

abbrev billing_graph : Graph (World ℕ)
billing_graph = record {
  nodes =
      (
        "charge",
        node_of (step_end (step "charge"))
            (record (blank "charge" task_state) { fn = some settle }),
      )
      ∷ [];
  entry = "charge";
}

billing-built : build billing ≡ ok billing_graph
unfolding build validate flow task new lookup insert node_of check_names check_tasks check_steps
billing-built = refl

billing-Keeps : (name : String) (inp : Obj) → Keeps executions_of (inline_handler billing name inp)
unfolding inline_handler flow task new lookup insert
billing-Keeps name inp = elim (Bool-cases ("charge" == name)) [
  | inl e ↦ rw e (Keeps-pure paid)
  | inr e ↦ rw e (Keeps-raise (handler_unknown name))
]

unused : lookup "e1" empty_world.memory.executions ≡ none
unfolding lookup
unused = refl

run_local-Tells_example :
    let (r, v') = run_local instant 1 1 "e1" billing [] empty_world in
    Tells r (status_of (lookup "e1" v'.memory.executions))
run_local-Tells_example =
    run_local-Tells instant (record { sleeps = λ d w. refl; waits = λ t w. refl }) 1 1 "e1" billing
      billing_graph [] empty_world billing-built billing-Keeps unused
