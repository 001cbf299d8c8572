-- ===== src/Api/Graphs.antt =====
-- internal/api/workflow_handler.go.
use Prim.Native.Char.{code}
use state_graph.Prelude.{
  String, ℕ, Bool, true, false, not, ◌&&◌, ◌||◌, leb, Option, none, some, List, [], ◌∷◌,
  if◌then◌else◌,
}
use state_graph.Dict.{Dict, lookup, insert}
use state_graph.Exec.{if_found, Exec, pure, inspect, act, ◌>>◌}
use state_graph.Gateway.{Registry}
use state_graph.Api.{
  StateNode, FlowEntry, WorkflowGraph, Response, problem, success, registered_name, graph,
}

abbrev between : ℕ → ℕ → ℕ → Bool
between a b c = leb a c && leb c b

-- ^[a-z0-9-]+$
abbrev pub name_chars : String → Bool
name_chars String.[] = true
name_chars (String.◌∷◌ c s) =
    (between 97 122 (code c) || (between 48 57 (code c) || between 45 45 (code c))) && name_chars s

unfoldable pub is_workflow_name : String → Bool
is_workflow_name String.[] = false
is_workflow_name (String.◌∷◌ c s) = name_chars (String.◌∷◌ c s)

abbrev invalid : String → Option Response
invalid msg = some (problem 400 msg "invalid_graph")

abbrev has_key {ℓ} : {A : Type ℓ} → Option A → Bool
has_key none = false
has_key (some _) = true

-- the flow refers to states that were seen
unfoldable pub check_flow : Dict (Unit {0}) → List FlowEntry → Option Response
check_flow seen [] = none
check_flow seen (fe ∷ flow) =
    let rest = check_flow seen flow in
    if not (has_key (lookup fe.name seen)) then invalid "flow references unknown state" else rest

unfoldable pub check_states : Dict (Unit {0}) → List StateNode → List FlowEntry → Option Response
unfolding check_flow
check_states seen [] flow = check_flow seen flow
check_states seen (st ∷ sts) flow =
    let rest = check_states (insert st.name tt seen) sts flow in
    if has_key (lookup st.name seen) then invalid "duplicate state name" else rest

abbrev is_nil {ℓ} : {A : Type ℓ} → List A → Bool
is_nil [] = true
is_nil (_ ∷ _) = false

-- the answer to a graph that is refused
unfoldable pub graph_problem : WorkflowGraph → Option Response
unfolding is_workflow_name check_states
graph_problem g =
    if not (is_workflow_name g.name)
    then invalid "name must match ^[a-z0-9-]+$"
    else if is_nil g.states
    then invalid "states must not be empty"
    else if is_nil g.flow
    then invalid "flow must not be empty"
    else check_states [] g.states g.flow

module _ {W : Type 0} where
  abbrev add_graph : WorkflowGraph → Registry WorkflowGraph W → Registry WorkflowGraph W
  add_graph g s = record s { workflows = insert g.name g s.workflows }

  abbrev add_new : WorkflowGraph → Exec (Registry WorkflowGraph W) Response
  add_new g = inspect λ s.
      if has_key (lookup g.name s.workflows)
      then pure (problem 409 "workflow already registered" "conflict")
      else (do act (add_graph g); pure (success 201 (registered_name g.name)))

  -- The body is `none` where json.Decoder refuses it. The mutex is held from the lookup on.
  unfoldable pub handle_register_workflow :
      Option WorkflowGraph → Exec (Registry WorkflowGraph W) Response
  unfolding graph_problem
  handle_register_workflow none = pure (problem 400 "invalid JSON body" "invalid_graph")
  handle_register_workflow (some g) = if_found (graph_problem g) (add_new g) pure

  unfoldable pub handle_get_workflow : String → Exec (Registry WorkflowGraph W) Response
  handle_get_workflow asked = inspect λ s.
      if_found (lookup asked s.workflows) (pure (problem 404 "workflow not found" "not_found"))
        λ g. pure (success 200 (graph g))
