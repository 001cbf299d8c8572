-- ===== src/Workflow/Validate.antt =====
-- pkg/kflow/validate.go: the rules, in order; `none` is the nil error.
use state_graph.Prelude.{
  String, Bool, true, false, not, ◌&&◌, Option, none, some, List, [], ◌∷◌, ◌==◌, if◌then◌else◌,
}
use state_graph.Dict.{Dict, lookup, insert}
use state_graph.Values.{
  Error, duplicate_name, missing_handler, ambiguous_handler, unknown_state, no_entry_point,
}
use state_graph.Workflow.{TaskDef, StepBuilder, Workflow, is_sentinel, is_task}

-- the first error of two checks
infixl 20 ◌orelse◌
abbrev pub ◌orelse◌ : Option Error → Option Error → Option Error
none orelse e = e
some d orelse e = some d

-- the loop of rule 2, over `w.names`
unfoldable pub check_names : Dict (Unit {0}) → List String → Option Error
check_names seen [] = none
check_names seen (name ∷ names) = elim (lookup name seen) [
  | none ↦ check_names (insert name tt seen) names
  | some _ ↦ some duplicate_name
]

abbrev pub is_set {ℓ} : {A : Type ℓ} → Option A → Bool
is_set none = false
is_set (some _) = true

module _ {W : Type 0} where
  -- the body of the loop of rule 3
  unfoldable pub check_task : TaskDef W → Option Error
  check_task td =
      if not (is_task td.kind)
      then none
      else if is_set td.fn && not (td.service_target == "")
      then some ambiguous_handler
      else if not (is_set td.fn) && td.service_target == ""
      then some missing_handler
      else none

  unfoldable pub check_tasks : Dict (TaskDef W) → Option Error
  unfolding check_task
  check_tasks [] = none
  check_tasks ((_, td) ∷ tasks) = check_task td orelse check_tasks tasks

  -- a `next` or `catch` of rule 4
  unfoldable pub check_ref : Dict (TaskDef W) → String → Option Error
  check_ref tasks name =
      if not (name == "") && not (is_sentinel name)
      then (if is_set (lookup name tasks) then none else some unknown_state)
      else none

  -- the loop of rule 4
  unfoldable pub check_steps : Dict (TaskDef W) → List StepBuilder → Option Error
  unfolding check_ref
  check_steps tasks [] = none
  check_steps tasks (s ∷ steps) =
      check_ref tasks s.next orelse check_ref tasks s.catch orelse check_steps tasks steps

  unfoldable pub validate_steps : Workflow W → List StepBuilder → Option Error
  validate_steps w [] = some no_entry_point
  validate_steps w (s ∷ steps) =
      check_names [] w.names orelse check_tasks w.tasks orelse check_steps w.tasks (s ∷ steps)

  unfoldable pub validate : Workflow W → Option Error
  unfolding validate_steps
  validate w = validate_steps w w.steps
