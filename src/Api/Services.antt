-- ===== src/Api/Services.antt =====
-- internal/api/service_handler.go.
use state_graph.Prelude.{String, Bool, true, false, not, ◌==◌, Option, none, some, if◌then◌else◌}
use state_graph.Values.{Error, service_not_found, duplicate_service_name}
use state_graph.Exec.{Exec, pure, branch, ◌>>◌}
use state_graph.Store.{ServiceRecord, ServiceStatus, stopped, Store}
use state_graph.Api.{
  Response, problem, success, internal_error, empty, registered_name, service, services,
}

abbrev pub is_stopped : ServiceStatus → Bool
is_stopped stopped = true
is_stopped _ = false

abbrev missing_service : {A : Type 0} → Error → A → A → A
missing_service service_not_found missing rest = missing
missing_service _ missing rest = rest

abbrev pub taken : {A : Type 0} → Error → A → A → A
taken duplicate_service_name collision rest = collision
taken _ collision rest = rest

abbrev pub collision : Response
collision = problem 409 "service name already registered" "name_collision"

module _ {W : Type 0} (store : Store W) where
  unfoldable pub handle_list_services : Exec W Response
  handle_list_services =
      branch store.list_services (λ rs. pure (success 200 (services rs)))
        (λ _. pure (internal_error "failed to list services"))

  abbrev create : ServiceRecord → Exec W Response
  create r =
      branch (store.create_service r) (λ _. pure (success 201 (registered_name r.name)))
        (λ e. pure (taken e collision (internal_error "failed to create service")))

  -- The body is `none` where json.Decoder refuses it.
  unfoldable pub handle_create_service : Option ServiceRecord → Exec W Response
  handle_create_service none = pure (problem 400 "invalid request body" "bad_request")
  handle_create_service (some r) =
      if r.name == ""
      then pure (problem 400 "service name is required" "bad_request")
      else branch (store.get_service r.name)
          (λ existing. if not (is_stopped existing.status) then pure collision else create r)
          (λ _. create r)

  unfoldable pub handle_get_service : String → Exec W Response
  handle_get_service asked =
      branch (store.get_service asked) (λ r. pure (success 200 (service r)))
        (λ e. pure (
          missing_service e (problem 404 "service not found" "not_found")
            (internal_error "failed to get service")))

  -- `k8s` are DeleteDeployment and DeleteIngress, whose errors are passed over; it may be nil.
  abbrev tear_down :
      Option ((String → Exec W (Unit {0})) × (String → Exec W (Unit {0})))
      → ServiceRecord
      → Exec W (Unit {0})
  tear_down none r = pure tt
  tear_down (some (delete_deployment, delete_ingress)) r = do
    branch (delete_deployment r.name) pure (λ _. pure tt)
    if r.ingress_host == "" then pure tt else branch (delete_ingress r.name) pure (λ _. pure tt)

  unfoldable pub handle_delete_service :
      Option ((String → Exec W (Unit {0})) × (String → Exec W (Unit {0})))
      → String
      → Exec W Response
  handle_delete_service k8s asked =
      branch (store.get_service asked)
        (λ r. do
          tear_down k8s r
          branch (store.delete_service asked) (λ _. pure (success 204 empty))
              (λ _. pure (internal_error "failed to delete service")))
        (λ e. pure (
          missing_service e (problem 404 "service not found" "not_found")
            (internal_error "failed to get service")))
