-- ===== src/Service.antt =====
-- pkg/kflow/service.go: the definition of a service, its builder and its check.
use state_graph.Prelude.{
  String, ℤ, pos, pos_part, Bool, true, false, ◌&&◌, not, Option, none, some, ltb, if◌then◌else◌,
}
use state_graph.Values.{Error, scale_min}
use state_graph.Workflow.{HandlerFunc}
use state_graph.Store.{ServiceMode, deployment, lambda}

pub record ServiceDef (W : Type 0) : Type 0 where
  pub name : String
  pub fn : Option (HandlerFunc W)
  pub mode : ServiceMode
  pub port : ℤ
  pub min_scale : ℤ
  pub max_scale : ℤ
  pub ingress_host : String
  pub timeout : ℤ

abbrev is_deployment : ServiceMode → Bool
is_deployment deployment = true
is_deployment lambda = false

module _ {W : Type 0} where
  -- 30 seconds, in nanoseconds
  unfoldable pub new_service : String → ServiceDef W
  new_service name = record {
    name = name;
    fn = none;
    mode = deployment;
    port = pos 8080;
    min_scale = pos 0;
    max_scale = pos 0;
    ingress_host = "";
    timeout = pos 30000000000;
  }

  abbrev pub set_handler : HandlerFunc W → ServiceDef W → ServiceDef W
  set_handler fn s = record s { fn = some fn }

  abbrev pub set_mode : ServiceMode → ServiceDef W → ServiceDef W
  set_mode m s = record s { mode = m }

  abbrev pub set_port : ℤ → ServiceDef W → ServiceDef W
  set_port p s = record s { port = p }

  abbrev pub set_scale : ℤ → ℤ → ServiceDef W → ServiceDef W
  set_scale min max s = record s { min_scale = min; max_scale = max }

  abbrev pub expose : String → ServiceDef W → ServiceDef W
  expose host s = record s { ingress_host = host }

  abbrev pub set_timeout : ℤ → ServiceDef W → ServiceDef W
  set_timeout d s = record s { timeout = d }

  unfoldable pub validate_service : ServiceDef W → Option Error
  validate_service s =
      if is_deployment s.mode && not (ltb 0 (pos_part s.min_scale)) then some scale_min else none
