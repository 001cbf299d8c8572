-- ===== src/Scenarios/Control.antt =====
-- A control plane without a cluster, the workflows that it runs, and a program that submits one.
use state_graph.Prelude.{
  String, ℕ, pos, ◌≡◌, refl, Option, none, some, [], ◌∷◌, true, ◌==◌, if◌then◌else◌,
}
use state_graph.Dict.{lookup, insert}
use state_graph.Values.{external}
use state_graph.Exec.{ok, Exec, pure, raise, branch}
use state_graph.Workflow.{Workflow, TaskDef, blank, task_state, step, step_end}
use state_graph.Workflow.Validate.{validate, check_names, check_tasks, check_steps}
use state_graph.Graph.{WorkflowGraph}
use state_graph.Local.Json.{to_register_json}
use state_graph.Store.Memory.Services.{World, memory_store}
use state_graph.Gateway.{Registry}
use state_graph.Gateway.Uuid.{format_uuid, mark_version}
use state_graph.Gateway.Workflows.{run_workflow}
use state_graph.Gateway.Workflows as Workflows
use state_graph.Gateway.Records.{get_execution}
use state_graph.Gateway.Auth.{cut_prefix}
use state_graph.Gateway.Keys.{cut_prefix-append}
use state_graph.Gateway.Mux.{HttpResponse, Backend, serve, answer_text}
use state_graph.Orchestrator.{ControlPlane}
use state_graph.Sdk.{Client, Body, workflow_body, input_body, service_body, submit}
use state_graph.Sdk.Served.{posted, reply, Delivers, Generated, first_seen, submit-registers}
use state_graph.Scenarios.Runs.{instant}
use state_graph.Scenarios.Servers.{bytes, quiet}

abbrev plane : ControlPlane (World ℕ)
plane = record {
  store = memory_store;
  cluster = none;
  runner_endpoint = "";
  runner_token_secret = [];
  dispatch = λ exec_id name target input. raise (external "no services");
  event_writer = λ exec_id name from to msg w. w;
  log_writer = λ exec_id name line w. w;
  broadcast = λ e w. record w { user = 1 };
  now = λ w. w.clock;
  runtime = instant;
}

abbrev pack : WorkflowGraph
pack = record {
  name = "pack";
  states =
      record {
        name = "box";
        kind = "task";
        service_target = "";
        wait_seconds = pos 0;
        catch_state = "";
      }
      ∷ [];
  steps = record { name = "box"; next = ""; catch = ""; is_end = true } ∷ [];
  image = "";
}

abbrev registry : Registry WorkflowGraph (World ℕ)
registry = record { workflows = ("pack", pack) ∷ []; world = quiet }

-- the program's workflow
abbrev box : TaskDef (Registry WorkflowGraph (World ℕ))
box = record (blank "box" task_state) { fn = some pure }

abbrev program : Workflow (Registry WorkflowGraph (World ℕ))
program = record {
  name = "pack";
  image = "";
  tasks = ("box", box) ∷ [];
  steps = step_end (step "box") ∷ [];
  names = "box" ∷ [];
}

abbrev by_body : Body → Exec (Registry WorkflowGraph (World ℕ)) HttpResponse
by_body (workflow_body g) =
    branch (Workflows.register_workflow (some g)) (λ name. pure (answer_text 200 name)) raise
by_body (input_body input) =
    branch (run_workflow memory_store (pure bytes) none "pack" (some input))
      (λ id. pure (answer_text 200 id)) raise
by_body (service_body s) = pure (answer_text 501 "")

abbrev backend : Backend Body (Registry WorkflowGraph (World ℕ))
backend = record {
  ready = λ w. true;
  serve_ws = λ r. pure (answer_text 101 "");
  serve_logs_ws = λ r. pure (answer_text 101 "");
  gateway = λ r. by_body r.body;
}

abbrev base : String
base = "http://localhost:8080"

abbrev path_of : Option String → String
path_of none = ""
path_of (some path) = path

abbrev environment : String → String
environment name = if name == "KFLOW_API_KEY" then "secret" else ""

abbrev program_client : Client (Registry WorkflowGraph (World ℕ))
program_client = record {
  getenv = environment;
  marshal_error = λ body. none;
  request_error = λ url. none;
  send = λ post.
      branch
        (serve "secret" backend
          (posted (path_of (cut_prefix base post.url)) post.authorization post.body))
        (λ r. pure (reply r)) raise;
  seconds = λ d. d;
}

delivers : (path : String) (body : Body) → Delivers "secret" backend program_client path body
delivers path body = record {
  marshals = refl;
  builds = refl;
  sends = λ w. rw (cut_prefix-append base path) refl;
}

generated : Generated backend (pure bytes) none "pack"
unfolding branch pure
generated = record {
  registers = λ authorization g s s' h. rw h refl;
  runs = λ authorization input s s' id h. rw h refl;
}

submit-registers_example :
    let id = format_uuid (mark_version bytes) in
    (w' : World ℕ) × (submit program_client program [] registry ≡ (
      ok tt,
      record {
        workflows = insert "pack" (to_register_json (λ d. d) program) registry.workflows;
        world = w';
      },
    ))
    × (get_execution memory_store id w' ≡ (ok (first_seen id "pack" 5), w'))
unfolding lookup pure validate check_names check_tasks check_steps
submit-registers_example =
    submit-registers program_client backend (pure bytes) none program [] bytes registry quiet
      (delivers _ _) (delivers _ _) generated tt refl refl refl refl
