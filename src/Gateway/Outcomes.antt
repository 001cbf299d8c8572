-- ===== src/Gateway/Outcomes.antt =====
-- What the handlers of internal/grpc/gateway.go achieve together, on the memory store.
use Prim.Native.Nat.{◌^◌}
use state_graph.Prelude.{
  if◌then◌else◌, Bool-cases, inl, inr, String, ℕ, ℤ, pos, negsuc, ◌≡◌, refl, ap, ◌∙◌, ◌<◌, false,
  ◌==◌, Option, none, some, arith,
}
use state_graph.Dict.{lookup, insert, lookup-insert_self}
use state_graph.Values.{Obj}
use state_graph.Exec.{ok, Exec, branch}
use state_graph.Graph.{WorkflowGraph}
use state_graph.Store.{Time, ExecutionRecord, ServiceRecord, ServiceStatus}
use state_graph.InProcess.Outcome.{fresh-created}
use state_graph.Store.Memory as Memory
use state_graph.Store.Memory.Services as Services
use state_graph.Store.Memory.Services.{World, memory_store}
use state_graph.Gateway.{
  exec_record_to_proto, Registry, ProtoExecution, int32, mode_text, status_pending,
  service_status_pending,
}
use state_graph.Gateway.Uuid.{format_uuid, mark_version, gen_uuid}
use state_graph.Gateway.Workflows.{new_record, register_workflow, get_workflow, run_workflow}
use state_graph.Gateway.Records.{
  requested_service, get_execution, RegisterServiceRequest, register_service, get_service,
  requested_mode,
}

found_workflow :
    {W : Type 0} (name : String) (g : WorkflowGraph) (s : Registry WorkflowGraph W)
    → lookup name s.workflows ≡ some g
    → get_workflow name s ≡ (ok g, s)
unfolding get_workflow branch
found_workflow name g s h = rw (h, get_workflow) refl

-- A registered workflow is the one that is got by its name.
register_workflow-get_workflow :
    {W : Type 0} (g : WorkflowGraph) (s : Registry WorkflowGraph W)
    → (g.name == "") ≡ false
    → (s' : Registry WorkflowGraph W) × (register_workflow (some g) s ≡ (ok g.name, s'))
      × (get_workflow g.name s' ≡ (ok g, s'))
unfolding register_workflow get_workflow branch
register_workflow-get_workflow g s named = (
  record s { workflows = insert g.name g s.workflows },
  rw (named) refl,
  found_workflow g.name g _ (lookup-insert_self g.name g s.workflows),
)

-- the range of an int32
abbrev pub IsInt32 : ℤ → Type 0
IsInt32 (pos n) = n < 2 ^ 31
IsInt32 (negsuc n) = n < 2 ^ 31

-- A number in range is not changed by the conversion.
int32_lem : (z : ℤ) → IsInt32 z → int32 z ≡ z
unfolding int32
int32_lem (pos n) h = ground (arith, h)
int32_lem (negsuc n) h = ground (arith, h)

got :
    (id : String) (r : ExecutionRecord) (m : Memory.MemoryStore)
    → lookup id m.executions ≡ some r
    → Memory.get_execution id m ≡ (ok r, m)
unfolding Memory.get_execution
got id r m h = rw (h, Memory.get_execution) refl

abbrev pub started : Time → ServiceRecord → ServiceRecord
started now r = record r { status = ServiceStatus.pending; created_at = now; updated_at = now }

pub service-created :
    (now : Time) (r : ServiceRecord) (m : Memory.MemoryStore)
    → lookup r.name m.services ≡ none
    → Services.create_service now r m
      ≡ (ok tt, record m { services = insert r.name (started now r) m.services })
unfolding Services.create_service
service-created now r m h = rw (h, Services.create_service) refl

pub service-got :
    (name : String) (r : ServiceRecord) (m : Memory.MemoryStore)
    → lookup name m.services ≡ some r
    → Services.get_service name m ≡ (ok r, m)
unfolding Services.get_service
service-got name r m h = rw (h, Services.get_service) refl

mode_asked :
    (mode : String)
    → mode_text (requested_mode mode) ≡ (if mode == "lambda" then "lambda" else "deployment")
mode_asked mode = elim (Bool-cases (mode == "lambda")) [ inl q ↦ rw q refl | inr q ↦ rw q refl ]

module _ {U : Type 0} where
  -- A service that was registered, with numbers of 32 bits, under a name that is not empty and not in
  -- use, is returned with its name, numbers and host, with the mode lambda if it asked for this, and
  -- else deployment, whatever it asked for, and with the status Pending.
  pub register_service-get_service :
      (r : RegisterServiceRequest) (w : World U)
      → (r.name == "") ≡ false
      → lookup r.name w.memory.services ≡ none
      → IsInt32 r.port
      → IsInt32 r.min_scale
      → IsInt32 r.max_scale
      → (w' : World U) × (register_service memory_store r w ≡ (ok r.name, w'))
        × (get_service memory_store r.name w' ≡ (
          ok (record {
            name = r.name;
            mode = if r.mode == "lambda" then "lambda" else "deployment";
            port = r.port;
            min_scale = r.min_scale;
            max_scale = r.max_scale;
            ingress_host = r.ingress_host;
            cluster_ip = "";
            status = service_status_pending;
            created_at = w.clock;
            updated_at = w.clock;
          }),
          w',
        ))
  unfolding register_service get_service branch
  register_service-get_service r w named new p q q' =
      let row = started w.clock (requested_service r) in
      let asked = mode_asked r.mode in
      let m : Memory.MemoryStore = record w.memory {
        services = insert r.name row w.memory.services;
      } in
      (
        record w { memory = m },
        rw (named, service-created w.clock (requested_service r) w.memory new) refl,
        rw
            (
              service-got r.name row m (lookup-insert_self r.name row w.memory.services),
              asked,
              int32_lem r.port p,
              int32_lem r.min_scale q,
              int32_lem r.max_scale q',
            )
            refl,
      )

  pub shown :
      (id : String) (r : ExecutionRecord) (w : World U)
      → lookup id w.memory.executions ≡ some r
      → get_execution memory_store id w ≡ (ok (exec_record_to_proto r), w)
  unfolding get_execution branch
  shown id r w h = rw (got id r w.memory h) refl

  -- a trigger whose goroutine has done nothing yet
  abbrev pub IsPatient : Option (String → WorkflowGraph → Option Obj → World U → World U) → Type 0
  IsPatient none = Unit
  IsPatient (some go) =
      (id : String) (g : WorkflowGraph) (input : Option Obj) (w : World U)
      → (go id g input w).memory ≡ w.memory

  module _ (rand_read : Exec (World U) (ℕ → ℕ)) (b : ℕ → ℕ) (s : Registry WorkflowGraph (World U))
      (w : World U) (drawn : rand_read s.world ≡ (ok b, w)) (name : String) (g : WorkflowGraph)
      (here : lookup name s.workflows ≡ some g)
      (fresh : lookup (format_uuid (mark_version b)) w.memory.executions ≡ none)
      (input : Option Obj) where
    abbrev pub drawn_id : String
    drawn_id = format_uuid (mark_version b)

    abbrev created : ProtoExecution
    created = record {
      id = drawn_id;
      workflow = name;
      status = status_pending;
      created_at = w.clock;
      updated_at = w.clock;
    }

    abbrev asked : ExecutionRecord
    asked = new_record drawn_id name input

    abbrev row : ExecutionRecord
    row = record asked { created_at = w.clock; updated_at = w.clock }

    abbrev with_row : Memory.MemoryStore
    with_row = record w.memory { executions = insert drawn_id row w.memory.executions }

    -- RunWorkflow of a registered workflow, with random bytes that give an id not in use, returns this
    -- id, and GetExecution then returns a pending execution of the workflow, if the goroutine that
    -- drives it has not touched the store by then.
    pub run_workflow-get_execution :
        (trigger : Option (String → WorkflowGraph → Option Obj → World U → World U))
        → IsPatient trigger
        → (w' : World U) × (run_workflow memory_store rand_read trigger name input s
            ≡ (ok drawn_id, record s { world = w' }))
          × (get_execution memory_store drawn_id w' ≡ (ok created, w'))
    unfolding run_workflow gen_uuid branch
    run_workflow-get_execution none patient = (
      record w { memory = with_row },
      rw (here, drawn, fresh-created w.clock asked w.memory fresh, run_workflow) refl,
      shown drawn_id row (record w { memory = with_row })
          (lookup-insert_self drawn_id row w.memory.executions),
    )
    run_workflow-get_execution (some go) patient =
        let w1 : World U = record w { memory = with_row } in
        (
          go drawn_id g input w1,
          rw (here, drawn, fresh-created w.clock asked w.memory fresh, run_workflow) refl,
          shown drawn_id row (go drawn_id g input w1) (
              ap (λ m. lookup drawn_id m.executions) (patient drawn_id g input w1)
              ∙ lookup-insert_self drawn_id row w.memory.executions),
        )
