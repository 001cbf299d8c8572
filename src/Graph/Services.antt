-- ===== src/Graph/Services.antt =====
-- A state that invokes a service, when its workflow comes over the wire.
use mathlib.Core.List.{Memᴰ}
use mathlib.Core.List.Memᴰ
use mathlib.Core.Option.{some-injective}
use state_graph.Prelude.{
  String, ◌≡◌, refl, sym, ap, subst, ◌∙◌, ◌≢◌, ◌⊎◌, inl, inr, true, some, List, [], ◌∷◌, ◌++◌,
  arith, ◌==◌, eq_iff, eq_refl, Bool-cases, Option-cases, All,
}
use state_graph.Dict.{Dict, lookup}
use state_graph.Values.{Error}
use state_graph.Exec.{err}
use state_graph.Workflow.{TaskDef, Workflow, task_state, new, flow}
use state_graph.Workflow.Validate.{validate, is_set}
use state_graph.Workflow.WellFormed.{WellFormed, Distinct, Fresh, HasOneHandler, validate_iff}
use state_graph.Graph.{WorkflowState, WorkflowGraph, add_state, add_states, build, build_from_proto}
use state_graph.Graph.Proto.{task_of, add_state-Registers, received, build-received}

-- at the end of a list without repeats comes a name that it does not hold
Fresh-append : (x y : String) (xs : List String) → Fresh x (xs ++ y ∷ []) → Fresh x xs × (x ≢ y)
Fresh-append x y [] h = (tt, h.0)
Fresh-append x y (z ∷ xs) h = let (f, ne) = Fresh-append x y xs h.1 in ((h.0, f), ne)

Distinct-append :
    (xs : List String) (y : String) → Distinct (xs ++ y ∷ []) → Distinct xs × ¬ Memᴰ y xs
Distinct-append [] y h = (tt, (λ m. elim m [ ]))
Distinct-append (x ∷ xs) y h =
    let (f, ne) = Fresh-append x y xs h.0 in
    let (d, absent) = Distinct-append xs y h.1 in
    ((f, d), (λ m. elim (Memᴰ.cases_cons m) [ inl e ↦ ne (sym e) | inr m' ↦ absent m' ]))

mem-append_last : (xs : List String) (k y : String) → Memᴰ k xs ⊎ (k ≡ y) → Memᴰ k (xs ++ y ∷ [])
mem-append_last [] k y (inl m) = elim m [ ]
mem-append_last [] k y (inr e) = Memᴰ.head e
mem-append_last (x ∷ xs) k y (inl (Memᴰ.head e)) = Memᴰ.head e
mem-append_last (x ∷ xs) k y (inl (Memᴰ.tail m)) = Memᴰ.tail (mem-append_last xs k y (inl m))
mem-append_last (x ∷ xs) k y (inr e) = Memᴰ.tail (mem-append_last xs k y (inr e))

All-lookup {ℓ} :
    {V : Type ℓ} (P : V → Type ℓ) (m : Dict V) (k : String) (v : V)
    → All (λ entry. P entry.1) m
    → lookup k m ≡ some v
    → P v
unfolding lookup
All-lookup P [] k v h e = cc
All-lookup P ((j, w) ∷ m) k v h e = elim (Bool-cases (j == k)) [
  | inl same ↦ subst P {x = w} {y = v} (some-injective w v (rw same at e)) h.0
  | inr ne ↦ All-lookup P m k v h.1 (rw ne at e)
]

-- a state that is no wait and names a service
abbrev pub Invokes : WorkflowState → Type 0
Invokes s = (s.kind ≢ "wait") × (s.service_target ≢ "")

module _ {W : Type 0} where
  -- no later registration makes the workflow well formed again
  Spoiled : String → Workflow W → Type 0
  Spoiled k w =
      (¬ Distinct w.names)
      ⊎ (Memᴰ k w.names × (td : TaskDef W) × (lookup k w.tasks ≡ some td) × ¬ HasOneHandler td)

  add_state-Spoiled :
      (k : String) (s : WorkflowState) (w : Workflow W) → Spoiled k w → Spoiled k (add_state s w)
  unfolding Spoiled
  add_state-Spoiled k s w (inl h) =
      let r = add_state-Registers s w in
      inl (λ d. h (Distinct-append w.names s.name (rw (← r.names) d)).0)
  add_state-Spoiled k s w (inr (m, td, found, bad)) =
      let r = add_state-Registers s w in
      elim (Bool-cases (s.name == k)) [
        | inl same ↦ inl λ d.
            (Distinct-append w.names s.name (rw (← r.names) d)).1 (rw ((eq_iff s.name k).0 same) m)
        | inr ne ↦ inr (
          rw r.names (mem-append_last w.names k s.name (inl m)),
          td,
          r.tasks k ∙ rw ne found,
          bad,
        )
      ]

  add_states-Spoiled :
      (k : String) (states : List WorkflowState) (w : Workflow W)
      → Spoiled k w
      → Spoiled k (add_states states w)
  unfolding add_states
  add_states-Spoiled k [] w h = h
  add_states-Spoiled k (s ∷ states) w h =
      add_states-Spoiled k states (add_state s w) (add_state-Spoiled k s w h)

  task_of_parts :
      (s : WorkflowState) (td : TaskDef W)
      → task_of s ≡ td
      → Invokes s
      → (td.kind ≡ task_state) × (is_set td.fn ≡ true) × (td.service_target ≡ s.service_target)
  task_of_parts s td e (waits, target) =
      rw (← e) (ground (arith, eq_iff s.kind "wait", eq_iff s.service_target ""))

  task_of-ambiguous :
      (s : WorkflowState) (td : TaskDef W) → task_of s ≡ td → Invokes s → ¬ HasOneHandler td
  task_of-ambiguous s td e (waits, target) h =
      let (kind, has_fn, has_target) = task_of_parts s td e (waits, target) in
      elim (h kind) [ inl (_, empty) ↦ target (sym has_target ∙ empty) | inr (lacks, _) ↦ cc ]

  invoking-Spoiled :
      (s : WorkflowState) (states : List WorkflowState) (w : Workflow W)
      → Invokes s
      → Memᴰ s states
      → Spoiled s.name (add_states states w)
  unfolding add_states Spoiled
  invoking-Spoiled s [] w h m = elim m [ ]
  invoking-Spoiled s (t ∷ states) w h (Memᴰ.head e) =
      let r = add_state-Registers t w in
      add_states-Spoiled s.name states (add_state t w) (
        rw (ap (λ s. s.name) e) (
          inr (
            rw r.names (mem-append_last w.names t.name t.name (inr refl)),
            task_of t,
            r.tasks t.name ∙ rw eq_refl,
            task_of-ambiguous t (task_of t) refl (subst Invokes e h),
          )))
  invoking-Spoiled s (t ∷ states) w h (Memᴰ.tail m) = invoking-Spoiled s states (add_state t w) h m

  not-Spoiled : (k : String) (w : Workflow W) → WellFormed w → ¬ Spoiled k w
  unfolding Spoiled
  not-Spoiled k w valid (inl h) = h valid.distinct
  not-Spoiled k w valid (inr (m, td, found, bad)) =
      bad (All-lookup HasOneHandler w.tasks k td valid.handlers found)

  build-invalid : (w : Workflow W) → ¬ WellFormed w → (e : Error) × (build w ≡ err e)
  unfolding build
  build-invalid w h = elim (Option-cases (validate w)) [
    | inl valid ↦ absurd (h ((validate_iff w).0 valid))
    | inr (e, invalid) ↦ (e, rw (invalid, build))
  ]

  -- A workflow with a state that is no wait and invokes a service never becomes a graph when it comes
  -- over the wire: `BuildFromProto` gives such a state a handler too, and returns an error.
  pub build_from_proto-invoking :
      (p : WorkflowGraph) (s : WorkflowState)
      → Memᴰ s p.states
      → s.kind ≢ "wait"
      → s.service_target ≢ ""
      → (e : Error) × (build_from_proto {W = W} p ≡ err e)
  unfolding received flow add_states Spoiled
  build_from_proto-invoking p s m waits target =
      let (e, fails) = build-invalid (received p) (λ valid.
        not-Spoiled s.name (received p) valid
          (invoking-Spoiled s p.states (new p.name) (waits, target) m)) in
      (e, build-received p ∙ fails)
