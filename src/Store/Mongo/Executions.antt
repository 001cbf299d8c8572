-- ===== src/Store/Mongo/Executions.antt =====
-- internal/store/mongo_store.go, the methods on executions and services.
use state_graph.Prelude.{
  String, ◌&&◌, ◌||◌, ◌==◌, pos, pos_part, ltb, true, none, some, List, map, if◌then◌else◌,
}
use state_graph.Values.{
  Status, pending, execution_not_found, execution_exists, service_not_found, duplicate_service_name,
  wrapped,
}
use state_graph.Exec.{Exec, pure, raise, inspect, branch, wrap, ◌>>=◌}
use state_graph.Store.{ExecutionRecord, ServiceRecord, ServiceStatus, ExecutionFilter}
use state_graph.Store.Memory.{status_text}
use state_graph.Store.Mongo.Driver.{unsorted, descending}
use state_graph.Store.Mongo.{
  MongoStore, ServiceDoc, input_to_m, execution_of_doc, no_docs, duplicate, matched,
}

abbrev pub service_of_doc : ServiceDoc → ServiceRecord
service_of_doc d = record {
  name = d.name;
  mode = d.mode;
  port = d.port;
  min_scale = d.min_scale;
  max_scale = d.max_scale;
  ingress_host = d.ingress_host;
  timeout = d.timeout_ns;
  status = d.status;
  cluster_ip = d.cluster_ip;
  created_at = d.created_at;
  updated_at = d.updated_at;
}

module _ {W : Type 0} (s : MongoStore W) where
  unfoldable pub create_execution : ExecutionRecord → Exec W (Unit {0})
  create_execution r = inspect λ w.
      branch
        (s.executions.insert_one (record {
          id = r.id;
          workflow = r.workflow;
          status = pending;
          input = some (input_to_m r.input);
          created_at = s.now w;
          updated_at = s.now w;
        }))
        pure
        (λ e. raise (duplicate (execution_exists r.id) (wrapped "store: create execution" "" e) e))

  unfoldable pub get_execution : String → Exec W ExecutionRecord
  get_execution exec_id =
      branch (s.executions.find_one (λ d. d.id == exec_id) unsorted)
        (λ d. pure (execution_of_doc d))
        (λ e. raise (no_docs execution_not_found (wrapped "store: get execution" "" e) e))

  unfoldable pub update_execution : String → Status → Exec W (Unit {0})
  update_execution exec_id status = inspect λ w. do
    n ← wrap "store: update execution" "" (
        s.executions.update_one (λ d. d.id == exec_id)
          (λ d. record d { status = status; updated_at = s.now w }))
    matched execution_not_found n

  unfoldable pub list_executions : ExecutionFilter → Exec W (List ExecutionRecord)
  list_executions f = do
    docs ← wrap "store: list executions" "" (
        s.executions.find
          (λ d.
            (f.workflow == "" || d.workflow == f.workflow)
            && (f.status == "" || status_text d.status == f.status))
          (record {
            sort = descending (λ d. d.created_at);
            limit = some (if ltb 0 (pos_part f.limit) then pos_part f.limit else 50);
            skip = f.offset;
          }))
    pure (map execution_of_doc docs)

  unfoldable pub create_service : ServiceRecord → Exec W (Unit {0})
  create_service r = inspect λ w.
      branch
        (s.services.insert_one (record {
          name = r.name;
          mode = r.mode;
          port = r.port;
          min_scale = r.min_scale;
          max_scale = r.max_scale;
          ingress_host = r.ingress_host;
          timeout_ns = r.timeout;
          status = ServiceStatus.pending;
          cluster_ip = r.cluster_ip;
          created_at = s.now w;
          updated_at = s.now w;
        }))
        pure
        (λ e. raise (duplicate duplicate_service_name (wrapped "store: create service" "" e) e))

  unfoldable pub get_service : String → Exec W ServiceRecord
  get_service name =
      branch (s.services.find_one (λ d. d.name == name) unsorted) (λ d. pure (service_of_doc d))
        (λ e. raise (no_docs service_not_found (wrapped "store: get service" "" e) e))

  unfoldable pub list_services : Exec W (List ServiceRecord)
  list_services = do
    docs ←
        wrap "store: list services" ""
          (s.services.find (λ _. true) (record { sort = unsorted; limit = none; skip = pos 0 }))
    pure (map service_of_doc docs)

  unfoldable pub update_service_status : String → ServiceStatus → String → Exec W (Unit {0})
  update_service_status name status cluster_ip = inspect λ w. do
    n ← wrap "store: update service status" "" (
        s.services.update_one (λ d. d.name == name)
          (λ d. record d {
            status = status;
            updated_at = s.now w;
            cluster_ip = if cluster_ip == "" then d.cluster_ip else cluster_ip;
          }))
    matched service_not_found n

  unfoldable pub delete_service : String → Exec W (Unit {0})
  delete_service name = do
    n ← wrap "store: delete service" "" (s.services.delete_one (λ d. d.name == name))
    matched service_not_found n
