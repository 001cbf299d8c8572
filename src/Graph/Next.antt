-- ===== src/Graph/Next.antt =====
-- Where a graph leads: its entry, and the successor of a node.
use mathlib.Core.List.{Memᴰ}
use state_graph.Prelude.{
  String, ◌≡◌, refl, ap, ◌∙◌, ◌≢◌, inl, inr, true, false, Option, none, some, List, [], ◌∷◌,
  Bool-cases, All,
}
use state_graph.Dict.{lookup}
use state_graph.Exec.{ok}
use state_graph.Workflow.{StepBuilder, Workflow, is_sentinel, is_choice}
use state_graph.Workflow.Validate.{is_set}
use state_graph.Graph.{Node, Graph, node_of, entry_of, build, node, entry_node, next}
use state_graph.Graph.Build.{FromStep, build_parts, build_sound, build_complete}

All-mem {ℓ κ} : {A : Type ℓ} (P : A → Type κ) (xs : List A) → All P xs → (x : A) → Memᴰ x xs → P x
All-mem P [] all x m = elim m [ ]
All-mem P (y ∷ ys) all x (Memᴰ.head e) = rw e (all.0)
All-mem P (y ∷ ys) all x (Memᴰ.tail m) = All-mem P ys all.1 x m

of_is_set {ℓ} : {A : Type ℓ} (o : Option A) → is_set o ≡ true → (a : A) × (o ≡ some a)
of_is_set none h = cc
of_is_set (some a) h = (a, refl)

-- Steps as the builders make them: `End` sets the successor too.
abbrev pub EndsLead : List StepBuilder → Type 0
EndsLead = All (λ s. s.is_end ≡ true → s.next ≢ "")

entry_listed :
    (steps : List StepBuilder)
    → steps ≢ []
    → (s : StepBuilder) × Memᴰ s steps × (s.name ≡ entry_of steps)
entry_listed [] h = absurd (h refl)
entry_listed (s ∷ steps) h = (s, Memᴰ.head refl, refl)

module _ {W : Type 0} where
  -- Every registered task has a step.
  abbrev pub AllStepped : Workflow W → Type 0
  AllStepped w =
      (k : String)
      → is_set (lookup k w.tasks) ≡ true
      → (s : StepBuilder) × Memᴰ s w.steps × (s.name ≡ k)

  FromStep-name :
      {w : Workflow W} {steps : List StepBuilder} {k : String} {n : Node W}
      → FromStep w steps k n
      → n.name ≡ k
  unfolding node_of
  FromStep-name from = ap (λ n. n.name) from.node_eq ∙ from.named

  FromStep-next :
      {w : Workflow W} {steps : List StepBuilder} {k : String} {n : Node W}
      (from : FromStep w steps k n)
      → (n.next ≡ from.step.next) × (n.terminal ≡ is_sentinel from.step.next)
  unfolding node_of
  FromStep-next from = (ap (λ n. n.next) from.node_eq, ap (λ n. n.terminal) from.node_eq)

  -- the successor of a node that is not terminal has a node too
  successor_listed :
      (w : Workflow W) {g : Graph W}
      → build w ≡ ok g
      → EndsLead w.steps
      → AllStepped w
      → (k : String) (n : Node W) → node g k ≡ some n
      → n.terminal ≡ false
      → is_set (node g n.next) ≡ true
  successor_listed w {g} h ends stepped k n found goes =
      let from = build_sound w h k n found in
      let (next_eq, terminal_eq) = FromStep-next from in
      let known = (All-mem _ w.steps (build_parts w h).0.known from.step from.listed).0 in
      let leads = All-mem _ w.steps ends from.step from.listed in
      elim known [
        | inl empty ↦ absurd (elim from.leads_on [ inl ne ↦ ne empty | inr end ↦ leads end empty ])
        | inr (inl sentinel) ↦ cc
        | inr (inr registered) ↦
            let (s, listed, named) = stepped from.step.next registered in
            rw (next_eq, ← named) (build_complete w h s listed)
      ]

  -- A graph that `Build` returns has an entry node, which is that of the first step.
  entry_node-build :
      (w : Workflow W) {g : Graph W}
      → build w ≡ ok g
      → (n : Node W) × (entry_node g ≡ some n) × (n.name ≡ entry_of w.steps)
  unfolding entry_node
  entry_node-build w {g} h =
      let (valid, entry, nodes) = build_parts w h in
      let (s, listed, named) = entry_listed w.steps valid.has_entry in
      let (n, found) = of_is_set _ (build_complete w h s listed) in
      (n, cc (entry, named, found), FromStep-name (build_sound w h s.name n found) ∙ named)

  -- In a graph that `Build` made of a workflow in which every task has a step, the successor of a
  -- state that is no choice is found, whatever the key.
  pub next_total :
      (w : Workflow W) {g : Graph W}
      → build w ≡ ok g
      → EndsLead w.steps
      → AllStepped w
      → (k key : String) (n : Node W) → node g k ≡ some n
      → is_choice n.task_def.kind ≡ false
      → (m : Option (Node W)) × (next g n key ≡ ok m)
  unfolding next node
  next_total w {g} h ends stepped k key n found plain = elim (Bool-cases n.terminal) [
    | inl ends_here ↦ (none, rw (ends_here, next))
    | inr goes ↦
        let (m, e) = of_is_set _ (successor_listed w h ends stepped k n found goes) in
        (some m, rw (goes, plain, e, next))
  ]
