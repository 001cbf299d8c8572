-- ===== src/Scenarios/Cluster.antt =====
-- A cluster that keeps the deployments and services of one name, with room for no service, and pods
-- whose logs are read.
use mathlib.Core.List.{Perm}
use mathlib.Core.List.Perm
use state_graph.Prelude.{
  String, pos, refl, Bool, true, false, Option, none, some, List, [], ◌∷◌, ◌++◌, ◌==◌,
  if◌then◌else◌,
}
use state_graph.Values.{external}
use state_graph.Exec.{ok, err}
use state_graph.Kubernetes.Manifests.{DeploymentSpec}
use state_graph.Kubernetes.Deployments.{Workloads, unrecognised, create_deployment}
use state_graph.Kubernetes.Rollout.{Documented, AllOrNothing, create_deployment-AllOrNothing}
use state_graph.Telemetry.{LogRow}
use state_graph.Telemetry.Writers.{Driver, LogWriter, PodLogs}
use state_graph.Telemetry.Lines.{reading}

-- whether the deployment of the one name is there
abbrev full : Workloads Bool
full = record {
  namespace = "kflow";
  fault = λ e. unrecognised;
  create_deployment_request = λ ns d there. (ok tt, true);
  get_deployment_request = λ ns name there. (err (external "unsupported"), there);
  update_deployment_request = λ ns d there. (ok tt, there);
  delete_deployment_request = λ in_background ns name there. (ok tt, false);
  watch_deployment_request = λ ns name there. (ok [], there);
  create_service_request = λ ns s there. (err (external "quota exceeded"), there);
  cluster_ip_request = λ ns name there. (ok "10.0.0.1", there);
  delete_service_request = λ in_background ns name there. (ok tt, there);
  create_ingress_request = λ ns i there. (ok tt, there);
  delete_ingress_request = λ ns name there. (ok tt, there);
}

full-Documented : Documented full
full-Documented = record {
  has_deployment = λ ns name there. there;
  has_service = λ ns name there. false;
  undeleted = λ ns name there. false;
  creates = λ ns d there. refl;
  serves = λ ns s there. (refl, tt);
  deletes = λ in_background ns name there h. refl;
}

abbrev payments : DeploymentSpec
payments = record {
  name = "kflow-svc-payments";
  image = "payments:1";
  args = [];
  port = pos 8080;
  min_scale = pos 2;
  max_scale = pos 4;
  namespace = "";
}

create_deployment-AllOrNothing_example :
    AllOrNothing full full-Documented "kflow" "kflow-svc-payments"
      (create_deployment full payments false)
unfolding full-Documented
create_deployment-AllOrNothing_example =
    create_deployment-AllOrNothing full full-Documented payments false refl

-- a database that is down: the world is the list of messages that were shown
abbrev down : Driver (List String)
down = record {
  create_if_not_exists = λ t shown. (err (external "down"), shown);
  insert_event = λ exec_id state from to msg shown. (err (external "down"), shown);
  insert_metric = λ service invocation ms code msg shown. (err (external "down"), shown);
  insert_log = λ row shown. (err (external "down"), shown);
  close = λ shown. (ok tt, shown);
}

abbrev show_row : LogRow → List String → List String
show_row row shown = shown ++ row.message ∷ []

abbrev live : LogWriter (List String)
live = record {
  ch = some down;
  on_write = some show_row;
  new_uuid = λ shown. "id";
  go = λ body. body;
  now = λ shown. 0;
}

abbrev pod_log : String → Option (List String)
pod_log pod = if pod == "pod-1" then some ("started" ∷ "done" ∷ []) else none

abbrev two_pods : PodLogs (List String)
two_pods = record {
  list_pods = λ label shown. (ok ("pod-0" ∷ "pod-1" ∷ []), shown);
  read_log = λ pod shown. (reading (external "gone") (pod_log pod), shown);
}
