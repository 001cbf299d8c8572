-- ===== src/Lib.antt =====
-- kflow runs workflows: state machines whose states are handlers, choices, waits and services. A
-- workflow is built in the SDK (pkg/kflow), compiled to a graph (internal/engine/graph.go) and driven
-- by an executor (internal/engine/executor.go), which writes every state ahead into a store
-- (internal/store) before it runs it. A state runs in process (internal/local), as a Kubernetes job
-- that calls back with a signed token (internal/engine/k8s_executor.go, internal/k8s,
-- internal/runner), or as a service (internal/controller). The SDK has a second, smaller executor of
-- its own (pkg/kflow/graph_json.go).
--
-- What models what:
--   Prelude, Dict, Values, Exec: native numbers and texts, Go maps as association lists, values and
--     errors, and the calls of Go as functions that pass on a world and end in a value, an error, a
--     panic, or (`running`) without fuel. Exec/Returns says which calls return.
--   Workflow: pkg/kflow/workflow.go and state.go; Workflow/Validate: validate.go. `configure` stands
--     for a call of a method of the `*TaskDef` that a registration returned.
--   Graph: internal/engine/graph.go (`build` is Build, `build_from_proto` BuildFromProto, `next`
--     Graph.Next).
--   Store: internal/store/store.go and service_store.go, with the interface as a record `Store`;
--     Store/Memory: memory_store.go, each method one step, since it holds the mutex; Store/Mongo:
--     mongo_store.go and object_store.go, over a collection of the driver (Store/Mongo/Driver).
--   Executor: internal/engine/executor.go (`run` is Run, `execute_state` executeState, `apply_retry`
--     applyRetry). Executor/Trace records the calls of an executor on its store and handlers.
--   InProcess: internal/local/runner.go, the engine on a memory store.
--   Local: pkg/kflow/graph_json.go, the SDK's executor and the wire format.
--   Service: pkg/kflow/service.go, the definition of a service.
--   Callback: internal/runner/server.go; Callback/Token: token.go.
--   Worker: pkg/kflow/worker.go, the process of a job, at the other end of these calls. Sdk:
--     pkg/kflow/runner.go and Dispatch, a workflow's program as a client of the gateway.
--   Orchestrator: cmd/orchestrator/main.go, the trigger of executions (a goroutine, in the model one
--     step); Orchestrator/Modes: the modes of the binary; Orchestrator/Startup: what the server mode
--     connects to (Store/Mongo/Connect, Kubernetes/Client) and its listeners (Gateway/Listeners).
--   Cli: cmd/kflow, client.go and the commands; Cli/Logs: logs.go.
--   Kubernetes: internal/k8s/job.go (JobName; the requests in Kubernetes/Jobs),
--     internal/engine/k8s_executor.go (Kubernetes/Jobs), internal/controller/service_dispatcher.go
--     (Kubernetes/Dispatch), deployment.go, ingress.go and errors.go
--     (Kubernetes/Deployments, Kubernetes/Manifests).
--   Gateway: internal/grpc/gateway.go (Gateway/Workflows, Records and Queries by service, Gateway/Uuid
--     genUUID); Gateway/Auth: authMiddleware, interceptors.go and token_auth.go; Gateway/Mux:
--     NewGatewayMux.
--   Api: internal/api/server.go; Api/Graphs: workflow_handler.go; Api/Services: service_handler.go;
--     Api/Logs: telemetry_handler.go; Api/Sessions: auth_middleware.go and auth_handler.go; Api/Hubs:
--     ws_handler.go and logs_ws_handler.go; Api/Streams: the streams of events and logs.
--   Telemetry: internal/telemetry, the rows and the queries; Telemetry/Filter: the live filter;
--     Telemetry/Writers: the schema and the writers.
--   Config: internal/config/config.go.
--   Scenarios: concrete workflows, stores, tokens, requests and environments, and a collection of
--     documents that keeps what the driver's manual says.
--
-- Bounds and fuel: `run` takes fuel for its loop and, apart from that, for the recursion of
-- executeState on catch states; `run_local_graph` takes fuel for its loop. Either may go on for ever
-- in the source. Go's `int` is an integer without bounds, a natural number where the code counts
-- upwards from a constant; the sum of an offset and a limit (Store/Memory) wraps at 64 bits. Maps and records are values: the code copies them where it hands them on.
-- Contexts are left out: what the code asks of one is whether it is done, which the runtime says.
-- A map is iterated in the order of its list, which Go leaves open. The goroutine of a log row runs at
-- any time; those of events and metrics are one step.
--
-- Parameters: the MongoDB driver, the S3 client and the ClickHouse connection, random bytes, strconv
-- and the parsing of times, the environment, the clock, sleeping and cancellation, the texts of
-- errors, HMAC, base64 and JSON, the tables of `unicode`, the requests to the cluster and the logs of
-- pods, gRPC connections, HTTP requests, web sockets, and the terminal.
--
-- Not modelled: the flags of the command line and its ui command, secureHeaders and the logging:
--   I/O, or glue between these parts.
-- The code that protoc generates is not modelled either.
pub mod Prelude
pub mod Dict
pub mod Values
pub mod Exec
pub mod Worker
pub mod Sdk
pub mod Cli
pub mod Workflow
pub mod Gateway
pub mod Graph
pub mod Store
pub mod Executor
pub mod Local
pub mod Callback
pub mod InProcess
pub mod Orchestrator
pub mod Service
pub mod Kubernetes
pub mod Scenarios
pub mod Telemetry
pub mod Api
pub mod Config
