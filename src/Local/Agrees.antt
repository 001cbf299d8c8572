-- ===== src/Local/Agrees.antt =====
-- The graph of the SDK's executor and the graph of the engine.
use state_graph.Prelude.{String, ◌≡◌, refl, List, [], ◌∷◌, arith, ◌≢◌}
use state_graph.Dict.{Dict, insert}
use state_graph.Exec.{ok}
use state_graph.Workflow.{TaskDef, StepBuilder, Workflow}
use state_graph.Graph.{Node, Graph, node_of, build_nodes, build, entry_of}
use state_graph.Graph.Build.{build_parts, build_nodes_step}
use state_graph.Local.{
  LocalNode, local_node_of, build_local_nodes, build_local_graph, build_local_steps,
}

module _ {W : Type 0} where
  -- a node of the engine without its `terminal` flag
  abbrev pub local_of : Node W → LocalNode W
  local_of n = record {
    name = n.name;
    task = n.task_def;
    next = n.next;
    catch = n.catch;
    retry = n.retry;
  }

  abbrev pub locals_of : Dict (Node W) → Dict (LocalNode W)
  locals_of [] = []
  locals_of ((k, n) ∷ nodes) = (k, local_of n) ∷ locals_of nodes

  insert-locals_of :
      (k : String) (n : Node W) (nodes : Dict (Node W))
      → insert k (local_of n) (locals_of nodes) ≡ locals_of (insert k n nodes)
  unfolding insert
  insert-locals_of k n [] = refl
  insert-locals_of k n ((j, n') ∷ nodes) = ground (arith, insert-locals_of k n nodes)

  nodes-agree :
      (tasks : Dict (TaskDef W)) (steps : List StepBuilder) (nodes : Dict (Node W))
      {built : Dict (Node W)}
      → build_nodes tasks steps nodes ≡ ok built
      → build_local_nodes tasks steps (locals_of nodes) ≡ ok (locals_of built)
  unfolding build_nodes build_local_nodes node_of local_node_of
  nodes-agree tasks [] nodes h = cc
  nodes-agree tasks (s ∷ steps) nodes {built} h =
      let (td, e, _, rest) = build_nodes_step tasks s steps nodes h in
      rw (e, build_local_nodes, insert-locals_of s.name (node_of s td) nodes)
        (nodes-agree tasks steps _ rest)

  steps-agree :
      (tasks : Dict (TaskDef W)) (steps : List StepBuilder) (built : Dict (Node W))
      → steps ≢ []
      → build_local_nodes tasks steps [] ≡ ok (locals_of built)
      → build_local_steps tasks steps
        ≡ ok (record { entry = entry_of steps; nodes = locals_of built })
  steps-agree tasks [] built given h = absurd (given refl)
  steps-agree tasks (s ∷ steps) built given h = rw h refl

  -- Where the engine's `Build` accepts a workflow, `buildLocalGraph` accepts it too, with the same
  -- entry and the same nodes: name, task, next, catch and retry.
  pub build_local_graph-agrees :
      (w : Workflow W) {g : Graph W}
      → build w ≡ ok g
      → build_local_graph w ≡ ok (record { entry = g.entry; nodes = locals_of g.nodes })
  unfolding build_local_graph
  build_local_graph-agrees w {g} h =
      let (valid, entry, nodes) = build_parts w h in
      rw entry
        (steps-agree w.tasks w.steps _ valid.has_entry (nodes-agree w.tasks w.steps [] nodes))
