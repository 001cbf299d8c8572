-- ===== src/Graph/Build.antt =====
-- What `Build` makes of the steps and tasks of a workflow.
use mathlib.Core.List.{Memᴰ}
use state_graph.Prelude.{
  String, not, ◌&&◌, ◌≡◌, refl, ◌≢◌, ◌⊎◌, inl, inr, Bool, true, false, some, List, [], ◌∷◌, arith,
  ◌==◌, eq_iff, Option-cases, none, sym, subst, ◌↔◌, if◌then◌else◌,
}
use state_graph.Dict.{Dict, lookup, insert, lookup-insert, lookup-insert_self, lookup-insert_cases}
use state_graph.Values.{Error, no_next}
use state_graph.Exec.{Result, ok, err}
use state_graph.Workflow.{TaskDef, StepBuilder, Workflow, RetryPolicy, succeed, fail}
use state_graph.Workflow.Validate.{validate, is_set}
use state_graph.Workflow.WellFormed.{WellFormed, validate_iff}
use state_graph.Graph.{Node, Graph, node_of, build_nodes, entry_of, with_entry, build, node}

module _ {W : Type 0} where
  unblocked :
      (empty end : Bool) (e : Error) (r : Result (Dict (Node W))) {out : Dict (Node W)}
      → (if empty && not end then err e else r) ≡ ok out
      → ((empty ≡ false) ⊎ (end ≡ true)) × (r ≡ ok out)
  unblocked false end e r h = (inl refl, h)
  unblocked true true e r h = (inr refl, h)
  unblocked true false e r h = cc

  -- one round of the loop that does not fail
  pub build_nodes_step :
      (tasks : Dict (TaskDef W)) (s : StepBuilder) (steps : List StepBuilder)
      (nodes : Dict (Node W)) {out : Dict (Node W)}
      → build_nodes tasks (s ∷ steps) nodes ≡ ok out
      → (td : TaskDef W) × (lookup s.name tasks ≡ some td)
        × ((s.next ≢ "") ⊎ (s.is_end ≡ true))
        × (build_nodes tasks steps (insert s.name (node_of s td) nodes) ≡ ok out)
  unfolding build_nodes
  build_nodes_step tasks s steps nodes {out} h = elim (Option-cases (lookup s.name tasks)) [
    | inl e ↦ cc (rw (e, build_nodes) at h)
    | inr (td, e) ↦
        let (leads, rest) =
          unblocked (s.next == "") s.is_end (no_next s.name) _ (rw (e, build_nodes) at h) in
        (td, e, ground (arith, eq_iff s.next ""), rest)
  ]

  -- The step's own catch and retry, where it has them, and else those of the task; the step's next,
  -- after which nothing comes exactly if it is a sentinel.
  pub record Merges (s : StepBuilder) (td : TaskDef W) (n : Node W) : Type 0 where
    pub own_catch : s.catch ≢ "" → n.catch ≡ s.catch
    pub task_catch : s.catch ≡ "" → n.catch ≡ td.catch
    pub own_retry : (policy : RetryPolicy) → s.retry ≡ some policy → n.retry ≡ some policy
    pub task_retry : s.retry ≡ none → n.retry ≡ td.retry
    pub task_def : n.task_def ≡ td
    pub next : n.next ≡ s.next
    pub terminal : (n.terminal ≡ true) ↔ ((s.next ≡ succeed) ⊎ (s.next ≡ fail))

  node_of-Merges : (s : StepBuilder) (td : TaskDef W) → Merges s td (node_of s td)
  unfolding node_of
  node_of-Merges s td = record {
    own_catch = λ h. ground (arith, h, eq_iff s.catch "");
    task_catch = λ h. ground (arith, h, eq_iff s.catch "");
    own_retry = λ policy h. rw h refl;
    task_retry = λ h. rw h refl;
    task_def = refl;
    next = refl;
    terminal = (
      λ h. ground (arith, h, eq_iff s.next succeed, eq_iff s.next fail),
      λ h. ground (arith, h, eq_iff s.next succeed, eq_iff s.next fail),
    );
  }

  -- a node of the graph comes from a step and the task of that name
  pub record FromStep (w : Workflow W) (steps : List StepBuilder) (k : String) (n : Node W)
      : Type 0 where
    pub step : StepBuilder
    pub task : TaskDef W
    pub listed : Memᴰ step steps
    pub named : step.name ≡ k
    pub registered : lookup k w.tasks ≡ some task
    pub leads_on : (step.next ≢ "") ⊎ (step.is_end ≡ true)
    pub merges : Merges step task n
    pub node_eq : n ≡ node_of step task

  build_nodes_sound :
      (w : Workflow W) (all steps : List StepBuilder) (nodes : Dict (Node W)) {out : Dict (Node W)}
      → ((s : StepBuilder) → Memᴰ s steps → Memᴰ s all)
      → ((k : String) (n : Node W) → lookup k nodes ≡ some n → FromStep w all k n)
      → build_nodes w.tasks steps nodes ≡ ok out
      → (k : String) (n : Node W) → lookup k out ≡ some n
      → FromStep w all k n
  unfolding build_nodes
  build_nodes_sound w all [] nodes sub old h k n found = old k n (cc)
  build_nodes_sound w all (s ∷ steps) nodes sub old h k n found =
      let (td, e, leads, rest) = build_nodes_step w.tasks s steps nodes h in
      build_nodes_sound w all steps (insert s.name (node_of s td) nodes)
        (λ s' m. sub s' (Memᴰ.tail m))
        (λ k' n' found'. elim (lookup-insert_cases s.name k' (node_of s td) nodes found') [
          | inl (same, is_new) ↦ record {
            step = s;
            task = td;
            listed = sub s (Memᴰ.head refl);
            named = same;
            registered = rw (← same) e;
            leads_on = leads;
            merges = subst (Merges s td) (sym is_new) (node_of-Merges s td);
            node_eq = is_new;
          }
          | inr there ↦ old k' n' there
        ])
        rest k n found

  build_nodes_keeps :
      (tasks : Dict (TaskDef W)) (steps : List StepBuilder) (nodes : Dict (Node W))
      {out : Dict (Node W)}
      → build_nodes tasks steps nodes ≡ ok out
      → (k : String) → is_set (lookup k nodes) ≡ true
      → is_set (lookup k out) ≡ true
  unfolding build_nodes
  build_nodes_keeps tasks [] nodes h k old = cc
  build_nodes_keeps tasks (s ∷ steps) nodes h k old =
      let (td, e, leads, rest) = build_nodes_step tasks s steps nodes h in
      build_nodes_keeps tasks steps (insert s.name (node_of s td) nodes) rest k
        (ground (arith, lookup-insert s.name k (node_of s td) nodes))

  build_nodes_complete :
      (tasks : Dict (TaskDef W)) (steps : List StepBuilder) (nodes : Dict (Node W))
      {out : Dict (Node W)}
      → build_nodes tasks steps nodes ≡ ok out
      → (s : StepBuilder) → Memᴰ s steps
      → is_set (lookup s.name out) ≡ true
  unfolding build_nodes
  build_nodes_complete tasks [] nodes h t m = elim m [ ]
  build_nodes_complete tasks (s ∷ steps) nodes h t (Memᴰ.head e) =
      let (td, e', leads, rest) = build_nodes_step tasks s steps nodes h in
      build_nodes_keeps tasks steps (insert s.name (node_of s td) nodes) rest t.name
        (rw e (rw lookup-insert_self refl))
  build_nodes_complete tasks (s ∷ steps) nodes h t (Memᴰ.tail m) =
      let (td, e', leads, rest) = build_nodes_step tasks s steps nodes h in
      build_nodes_complete tasks steps (insert s.name (node_of s td) nodes) rest t m

  with_entry_ok :
      (entry : String) (r : Result (Dict (Node W))) {g : Graph W}
      → with_entry entry r ≡ ok g
      → (g.entry ≡ entry) × (r ≡ ok g.nodes)
  with_entry_ok entry r h = ground arith

  -- a graph comes only from a well-formed workflow, by the loop over all its steps
  pub build_parts :
      (w : Workflow W) {g : Graph W}
      → build w ≡ ok g
      → WellFormed w × (g.entry ≡ entry_of w.steps) × (build_nodes w.tasks w.steps [] ≡ ok g.nodes)
  unfolding build
  build_parts w {g} h = elim (Option-cases (validate w)) [
    | inl valid ↦
        let (entry, nodes) = with_entry_ok (entry_of w.steps) _ (rw (valid, build) at h) in
        ((validate_iff w).0 valid, entry, nodes)
    | inr (e, invalid) ↦ cc (rw (invalid, build) at h)
  ]

  -- Every node of a graph that `Build` returns comes from a step of the workflow and from the task
  -- of that name, with the step's next, and with the step's own catch and retry, or the task's where the step has
  -- none; the step has a next or is an end.
  pub build_sound :
      (w : Workflow W) {g : Graph W}
      → build w ≡ ok g
      → (k : String) (n : Node W) → node g k ≡ some n
      → FromStep w w.steps k n
  unfolding node lookup
  build_sound w {g} h k n found =
      build_nodes_sound w w.steps w.steps [] (λ s m. m) (λ k n e. cc) (build_parts w h).2 k n found

  -- Every step has a node in the graph.
  pub build_complete :
      (w : Workflow W) {g : Graph W}
      → build w ≡ ok g
      → (s : StepBuilder) → Memᴰ s w.steps
      → is_set (node g s.name) ≡ true
  unfolding node
  build_complete w h s m = build_nodes_complete w.tasks w.steps [] (build_parts w h).2 s m
