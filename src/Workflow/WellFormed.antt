-- ===== src/Workflow/WellFormed.antt =====
-- What `Validate` promises, said without its loops, and that it decides exactly this.
use state_graph.Prelude.{
  String, ◌≡◌, refl, ◌≢◌, ◌↔◌, ◌⊎◌, true, false, Option, none, some, List, [], ◌∷◌, arith, eq_iff,
  All,
}
use state_graph.Dict.{Dict, lookup, insert, lookup-insert}
use state_graph.Values.{Error}
use state_graph.Workflow.{TaskDef, StepBuilder, Workflow, task_state, is_sentinel}
use state_graph.Workflow.Validate.{
  is_set, check_names, check_task, check_tasks, check_ref, check_steps, validate_steps, validate,
  ◌orelse◌,
}

-- no name occurs twice
abbrev pub Fresh : String → List String → Type 0
Fresh name names = All (λ other. name ≢ other) names

abbrev pub Distinct : List String → Type 0
Distinct [] = Unit
Distinct (name ∷ names) = Fresh name names × Distinct names

module _ {W : Type 0} where
  -- a task state has a handler or a service, and not both
  abbrev pub HasOneHandler : TaskDef W → Type 0
  HasOneHandler td =
      td.kind ≡ task_state
      → ((is_set td.fn ≡ true) × (td.service_target ≡ ""))
        ⊎ ((is_set td.fn ≡ false) × (td.service_target ≢ ""))

  -- a name that is empty, a sentinel, or registered
  abbrev pub IsKnown : Dict (TaskDef W) → String → Type 0
  IsKnown tasks name =
      (name ≡ "") ⊎ ((is_sentinel name ≡ true) ⊎ (is_set (lookup name tasks) ≡ true))

  pub record WellFormed (w : Workflow W) : Type 0 where
    pub has_entry : w.steps ≢ []
    pub distinct : Distinct w.names
    pub handlers : All (λ entry. HasOneHandler entry.1) w.tasks
    pub known : All (λ s. IsKnown w.tasks s.next × IsKnown w.tasks s.catch) w.steps

  check_task_iff : (td : TaskDef W) → (check_task td ≡ none) ↔ HasOneHandler td
  unfolding check_task
  check_task_iff td = ground (arith, eq_iff td.service_target "")

  check_ref_iff :
      (tasks : Dict (TaskDef W)) (name : String)
      → (check_ref tasks name ≡ none) ↔ IsKnown tasks name
  unfolding check_ref
  check_ref_iff tasks name = ground (arith, eq_iff name "")

both_checks :
    (d e : Option Error) {P Q : Type 0}
    → (d ≡ none) ↔ P
    → (e ≡ none) ↔ Q
    → ((d orelse e) ≡ none) ↔ (P × Q)
both_checks none e p q = ((λ h. (p.0 refl, q.0 h)), (λ h. q.1 h.1))
both_checks (some d) e p q = ((λ h. cc), (λ h. p.1 h.0))

Unseen : Dict (Unit {0}) → List String → Type 0
Unseen seen names = All (λ name. lookup name seen ≡ none) names

Unseen-empty : (names : List String) → Unseen [] names
unfolding Unseen lookup
Unseen-empty [] = tt
Unseen-empty (name ∷ names) = (refl, Unseen-empty names)

Unseen-insert :
    (seen : Dict (Unit {0})) (name : String) (names : List String)
    → Unseen (insert name tt seen) names ↔ (Fresh name names × Unseen seen names)
unfolding Unseen
Unseen-insert seen name [] = ((λ _. (tt, tt)), (λ _. tt))
Unseen-insert seen name (other ∷ names) =
    ground
      (arith, lookup-insert name other tt seen, eq_iff name other, Unseen-insert seen name names)

check_names_iff :
    (seen : Dict (Unit {0})) (names : List String)
    → (check_names seen names ≡ none) ↔ (Distinct names × Unseen seen names)
unfolding check_names Unseen
check_names_iff seen [] = ((λ _. (tt, tt)), (λ _. refl))
check_names_iff seen (name ∷ names) =
    ground (arith, Unseen-insert seen name names, check_names_iff (insert name tt seen) names)

module _ {W : Type 0} where
  check_tasks_iff :
      (tasks : Dict (TaskDef W))
      → (check_tasks tasks ≡ none) ↔ All (λ entry. HasOneHandler entry.1) tasks
  unfolding check_tasks
  check_tasks_iff [] = ((λ _. tt), (λ _. refl))
  check_tasks_iff ((name, td) ∷ tasks) =
      both_checks (check_task td) _ (check_task_iff td) (check_tasks_iff tasks)

  check_steps_iff :
      (tasks : Dict (TaskDef W)) (steps : List StepBuilder)
      → (check_steps tasks steps ≡ none)
        ↔ All (λ s. IsKnown tasks s.next × IsKnown tasks s.catch) steps
  unfolding check_steps
  check_steps_iff tasks [] = ((λ _. tt), (λ _. refl))
  check_steps_iff tasks (s ∷ steps) =
      both_checks _ _
        (both_checks (check_ref tasks s.next) _ (check_ref_iff tasks s.next)
          (check_ref_iff tasks s.catch))
        (check_steps_iff tasks steps)

  validate_steps_iff :
      (w : Workflow W) (steps : List StepBuilder)
      → (validate_steps w steps ≡ none) ↔ (
          (steps ≢ [])
          × Distinct w.names
          × All (λ entry. HasOneHandler entry.1) w.tasks
          × All (λ s. IsKnown w.tasks s.next × IsKnown w.tasks s.catch) steps)
  unfolding validate_steps
  validate_steps_iff w [] = ((λ h. cc), (λ h. absurd (h.0 refl)))
  validate_steps_iff w (s ∷ steps) =
      let checks =
        both_checks _ (check_steps w.tasks (s ∷ steps))
          (both_checks _ (check_tasks w.tasks) (check_names_iff [] w.names)
            (check_tasks_iff w.tasks))
          (check_steps_iff w.tasks (s ∷ steps)) in
      (
        (λ h. let ((names, tasks), refs) = checks.0 h in ((λ e. cc), names.0, tasks, refs)),
        (λ h. checks.1 (((h.1, Unseen-empty w.names), h.2), h.3)),
      )

  -- `Validate` returns nil exactly for the well-formed workflows; the services of the program play no
  -- part.
  pub validate_iff : (w : Workflow W) → (validate w ≡ none) ↔ WellFormed w
  unfolding validate
  validate_iff w =
      let checks = validate_steps_iff w w.steps in
      (
        (λ h.
            let (entry, names, tasks, refs) = checks.0 h in
            record { has_entry = entry; distinct = names; handlers = tasks; known = refs }),
        (λ h. checks.1 (h.has_entry, h.distinct, h.handlers, h.known)),
      )
