-- ===== src/Kubernetes/Manifests.antt =====
-- internal/k8s/deployment.go and ingress.go: the deployments, services and ingresses of kflow services.
use state_graph.Prelude.{String, ℕ, ℤ, Bool, true, false, ◌==◌, List, [], ◌∷◌, if◌then◌else◌}
use state_graph.Kubernetes.{Unicode, cut, join, trim_right, to_kebab}

pub record DeploymentSpec : Type 0 where
  pub name : String
  pub image : String
  pub args : List String
  pub port : ℤ
  pub min_scale : ℤ
  pub max_scale : ℤ
  pub namespace : String

-- what the code sets of appsv1.Deployment, corev1.Service and networkingv1.Ingress
pub record Deployment : Type 0 where
  pub name : String
  pub namespace : String
  pub labels : List (String × String)
  pub replicas : ℤ
  pub selector : List (String × String)
  pub pod_labels : List (String × String)
  pub container : String
  pub image : String
  pub args : List String
  pub container_port : ℤ
  pub run_as_non_root : Bool
  pub run_as_user : ℕ
  pub allow_privilege_escalation : Bool
  pub dropped : List String

pub record ClusterService : Type 0 where
  pub name : String
  pub namespace : String
  pub labels : List (String × String)
  pub selector : List (String × String)
  pub port : ℤ
  pub target_port : ℤ

pub record IngressSpec : Type 0 where
  pub name : String
  pub service_name : String
  pub port : ℤ
  pub host : String
  pub namespace : String

pub record Ingress : Type 0 where
  pub name : String
  pub namespace : String
  pub labels : List (String × String)
  pub annotations : List (String × String)
  pub ingress_class : String
  pub host : String
  pub path : String
  pub backend : String
  pub backend_port : ℤ

unfoldable pub svc_name : Unicode → String → String
svc_name u service_name = trim_right (cut 63 (join "kflow-svc-" (to_kebab u service_name)))

abbrev pub or_namespace : String → String → String
or_namespace asked own = if asked == "" then own else asked

abbrev pub routing_label : String → List (String × String)
routing_label name = ("kflow/service", name) ∷ []

abbrev pub deployment_of : DeploymentSpec → String → Deployment
deployment_of spec ns = record {
  name = spec.name;
  namespace = ns;
  labels = ("app", "kflow") ∷ routing_label spec.name;
  replicas = spec.min_scale;
  selector = routing_label spec.name;
  pod_labels = routing_label spec.name;
  container = "service";
  image = spec.image;
  args = spec.args;
  container_port = spec.port;
  run_as_non_root = true;
  run_as_user = 65534;
  allow_privilege_escalation = false;
  dropped = "ALL" ∷ [];
}

abbrev pub service_of : DeploymentSpec → String → ClusterService
service_of spec ns = record {
  name = spec.name;
  namespace = ns;
  labels = ("app", "kflow") ∷ routing_label spec.name;
  selector = routing_label spec.name;
  port = spec.port;
  target_port = spec.port;
}

abbrev pub ingress_of : IngressSpec → String → Ingress
ingress_of spec ns = record {
  name = spec.name;
  namespace = ns;
  labels = ("app", "kflow") ∷ [];
  annotations = ("nginx.ingress.kubernetes.io/rewrite-target", "/") ∷ [];
  ingress_class = "nginx";
  host = spec.host;
  path = "/";
  backend = spec.service_name;
  backend_port = spec.port;
}
