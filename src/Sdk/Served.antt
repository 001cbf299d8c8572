-- ===== src/Sdk/Served.antt =====
-- A workflow's program, at the other end of the gateway.
use Prim.Native.String.{◌++◌ as ◌<>◌}
use state_graph.Prelude.{
  String, ℕ, ◌≡◌, refl, sym, Option, none, some, Bool, false, true, ◌==◌, eq_iff, eq_refl,
  Bool-cases, inl, inr,
}
use state_graph.Dict.{lookup, insert, lookup-insert_self}
use state_graph.Values.{Obj}
use state_graph.Exec.{ok, Exec, pure, raise, branch}
use state_graph.Workflow.{Workflow}
use state_graph.Workflow.Validate.{validate}
use state_graph.Graph.{WorkflowGraph}
use state_graph.Local.Json.{to_register_json}
use state_graph.Store.Memory.Services.{World, memory_store}
use state_graph.Gateway.{Registry, ProtoExecution, status_pending}
use state_graph.Gateway.Uuid.{format_uuid, mark_version}
use state_graph.Gateway.Workflows.{run_workflow}
use state_graph.Gateway.Workflows as Workflows
use state_graph.Gateway.Records.{get_execution}
use state_graph.Gateway.Outcomes.{run_workflow-get_execution, IsPatient}
use state_graph.Gateway.Auth.{cut_prefix, auth_middleware}
use state_graph.Gateway.Keys.{cut_prefix-append, provided_token-bearer}
use state_graph.Gateway.Mux.{HttpRequest, HttpResponse, Backend, serve, answer_text, secure_headers}
use state_graph.Sdk.{
  Client, Body, workflow_body, input_body, bearer, server_or_default, submit, register_workflow,
  trigger_execution, post, stored, triggered,
}

abbrev pub posted : String → String → Body → HttpRequest Body
posted path authorization body = record {
  method = "POST";
  path = path;
  authorization = authorization;
  token = "";
  body = body;
}

abbrev pub run_path : String → String
run_path name = "/api/v1/workflows/" <> (name <> "/run")

-- a path that begins like the path of a run is no path of a web socket
not_ws :
    (path : String) (name : String)
    → path ≡ run_path name
    → cut_prefix "/api/v1/workflows/" path ≡ some (name <> "/run")
not_ws path name e = rw e (cut_prefix-append "/api/v1/workflows/" (name <> "/run"))

other_path :
    (ws : String) (name : String)
    → cut_prefix "/api/v1/workflows/" ws ≡ none
    → (run_path name == ws) ≡ false
other_path ws name h = elim (Bool-cases (run_path name == ws)) [
  | inl same ↦ cc (h, not_ws ws name (sym ((eq_iff (run_path name) ws).0 same)))
  | inr other ↦ other
]

-- the execution that a client sees first
abbrev pub first_seen : String → String → ℕ → ProtoExecution
first_seen id name now = record {
  id = id;
  workflow = name;
  status = status_pending;
  created_at = now;
  updated_at = now;
}

abbrev pub reply : HttpResponse → ℕ × String
reply r = (r.status, r.text)

module _ {W : Type 0} (api_key : String) (b : Backend Body W) where
  -- a request with the key goes through to the handler that protoc generates
  served :
      (path : String) (body : Body)
      → (path == "/api/v1/ws") ≡ false
      → (path == "/api/v1/ws/logs") ≡ false
      → serve api_key b (posted path (bearer api_key) body)
        ≡ secure_headers b.gateway (posted path (bearer api_key) body)
  unfolding serve auth_middleware
  served path body h k = elim (Bool-cases (api_key == "")) [
    | inl open_server ↦ rw (h, k, open_server) refl
    | inr keyed ↦ rw (h, k, keyed, provided_token-bearer api_key "" keyed, eq_refl) refl
  ]

  -- A request of the client can be marshalled and built, and reaches the public server.
  pub record Delivers (c : Client W) (path : String) (body : Body) : Type 0 where
    pub marshals : c.marshal_error body ≡ none
    pub builds : c.request_error (server_or_default (c.getenv "KFLOW_SERVER") <> path) ≡ none
    pub sends :
        (w : W)
        → c.send
            (record {
              url = server_or_default (c.getenv "KFLOW_SERVER") <> path;
              authorization = bearer api_key;
              body = body;
            })
            w
          ≡ branch
              (serve api_key b (posted path (bearer api_key) body))
              (λ r. pure (reply r))
              raise
              w

  accepted :
      (c : Client W) (what building : String) (accepts : ℕ → Bool) (path : String) (body : Body)
      (text : String) (w w' : W)
      → Delivers c path body
      → (path == "/api/v1/ws") ≡ false
      → (path == "/api/v1/ws/logs") ≡ false
      → accepts 200 ≡ true
      → b.gateway (posted path (bearer api_key) body) w ≡ (ok (answer_text 200 text), w')
      → post c what building accepts
          (server_or_default (c.getenv "KFLOW_SERVER") <> path)
          api_key
          body
          w
        ≡ (ok tt, w')
  unfolding post branch pure
  accepted c what building accepts path body text w w' delivers no_ws no_logs fits answered =
      rw (delivers.builds, delivers.sends w, served path body no_ws no_logs, answered, fits) refl

-- what protoc generates, for a workflow's name: the handler of a route calls the method of the service, and an answer of this
-- is one with the status 200
pub record Generated {U : Type 0} (b : Backend Body (Registry WorkflowGraph (World U)))
    (rand_read : Exec (World U) (ℕ → ℕ))
    (trigger : Option (String → WorkflowGraph → Option Obj → World U → World U)) (name : String)
    : Type 0 where
  pub registers :
      (authorization : String) (g : WorkflowGraph) (s s' : Registry WorkflowGraph (World U))
      → Workflows.register_workflow (some g) s ≡ (ok name, s')
      → b.gateway (posted "/api/v1/workflows" authorization (workflow_body g)) s
        ≡ (ok (answer_text 200 name), s')
  pub runs :
      (authorization : String) (input : Obj) (s s' : Registry WorkflowGraph (World U)) (id : String)
      → run_workflow memory_store rand_read trigger name (some input) s ≡ (ok id, s')
      → b.gateway (posted (run_path name) authorization (input_body input)) s
        ≡ (ok (answer_text 200 id), s')

-- A program that submits a valid workflow with a name, with the server's API key, to a gateway on the
-- memory store, its random bytes giving an id not in use, gets nil; the gateway then has the workflow
-- as the SDK sends it, and GetExecution returns a pending execution of it, if the goroutine that
-- drives it has not touched the store by then. The two requests, to register the workflow and to run
-- it, can be marshalled and built, and reach the server; what protoc generates is as documented.
pub submit-registers :
    {U : Type 0} (c : Client (Registry WorkflowGraph (World U)))
    (b : Backend Body (Registry WorkflowGraph (World U))) (rand_read : Exec (World U) (ℕ → ℕ))
    (trigger : Option (String → WorkflowGraph → Option Obj → World U → World U))
    (wf : Workflow (Registry WorkflowGraph (World U))) (input : Obj) (bytes : ℕ → ℕ)
    (s : Registry WorkflowGraph (World U)) (w : World U)
    → Delivers
        (c.getenv "KFLOW_API_KEY")
        b
        c
        "/api/v1/workflows"
        (workflow_body (to_register_json c.seconds wf))
    → Delivers (c.getenv "KFLOW_API_KEY") b c (run_path wf.name) (input_body input)
    → Generated b rand_read trigger wf.name
    → IsPatient trigger
    → validate wf ≡ none
    → (wf.name == "") ≡ false
    → rand_read s.world ≡ (ok bytes, w)
    → lookup (format_uuid (mark_version bytes)) w.memory.executions ≡ none
    → let id = format_uuid (mark_version bytes) in
      let g = to_register_json c.seconds wf in
      (w' : World U) × (submit c wf input s
        ≡ (ok tt, record { workflows = insert wf.name g s.workflows; world = w' }))
      × (get_execution memory_store id w' ≡ (ok (first_seen id wf.name w.clock), w'))
unfolding submit register_workflow trigger_execution Workflows.register_workflow branch
    to_register_json cut_prefix
submit-registers c b rand_read trigger wf input bytes s w registers runs generated patient valid
      named drawn fresh =
    let g = to_register_json c.seconds wf in
    let key = c.getenv "KFLOW_API_KEY" in
    let s1 : Registry WorkflowGraph (World _) = record s {
      workflows = insert wf.name g s.workflows;
    } in
    let registered : Workflows.register_workflow (some g) s ≡ (ok wf.name, s1) = rw named refl in
    let (w', ran, seen) =
      run_workflow-get_execution rand_read bytes s1 w drawn wf.name g
        (lookup-insert_self wf.name g s.workflows) fresh (some input) trigger patient in
    (
      w',
      rw
          (
            valid,
            registers.marshals,
            accepted key b c "register workflow" "build register request" stored "/api/v1/workflows"
                (workflow_body g) wf.name s s1 registers refl refl refl
                (generated.registers _ g s s1 registered),
            runs.marshals,
            accepted key b c "trigger execution" "build run request" triggered (run_path wf.name)
                (input_body input) _ s1 _ runs (other_path "/api/v1/ws" wf.name refl)
                (other_path "/api/v1/ws/logs" wf.name refl) refl
                (generated.runs _ input s1 _ _ ran),
          )
          refl,
      seen,
    )
