-- ===== src/Local/Terminates.antt =====
-- The loop of the SDK's executor ends on graphs without a cycle.
use state_graph.Prelude.{
  String, ℕ, ℤ, zero, suc, ◌≡◌, refl, sym, ◌∙◌, ◌≢◌, ◌<◌, true, false, ◌==◌, eq_iff, Option, none,
  some, arith, Bool-cases, inl, inr, if◌then◌else◌,
}
use state_graph.Dict.{lookup, insert, lookup-insert_self}
use state_graph.Values.{Error, Obj, Value, str, other}
use state_graph.Exec.{
  ok-injective, Result, ok, err, Exec, pure, raise, panics, running, panic, resume, branch,
}
use state_graph.Exec.Returns.{
  IsDone, Returns, Yields, Yields-result, Returns-pure, Returns-raise, Returns-result, Returns-if,
  Returns-test, Returns-branch,
}
use state_graph.Workflow.{StateKind, TaskDef, ChoiceFunc, is_choice, is_wait}
use state_graph.Workflow.Validate.{is_set}
use state_graph.Local.Returns.{HandlersReturn, run_local_state-Returns}
use state_graph.Local.{
  LocalNode, LocalGraph, LocalRuntime, run_choice, run_local_state, next_local_node, at_node, go_on,
  local_loop, run_local_graph, choice_of,
}

choice_not_wait : (kind : StateKind) → is_choice kind ≡ true → is_wait kind ≡ false
choice_not_wait kind h = ground arith

choice_of-IsDone : (name : String) (v : Option Value) → IsDone (choice_of name v)
choice_of-IsDone name none = tt
choice_of-IsDone name (some (str s)) = tt
choice_of-IsDone name (some (other n)) = tt

module _ {W : Type 0} where
  -- what the function of a choice can choose
  pub record Chooses (td : TaskDef W) (x : String) : Type 0 where
    pub fn : ChoiceFunc W
    pub fn_eq : td.choice_fn ≡ some fn
    pub input : Obj
    pub chosen : Yields (fn input) x

  -- every way from a state to another goes down in rank, so there is no cycle
  pub record Ranked (g : LocalGraph W) (rank : String → ℕ) : Type 0 where
    pub by_next :
        (k : String) (n : LocalNode W)
        → lookup k g.nodes ≡ some n
        → is_choice n.task.kind ≡ false
        → is_set (lookup n.next g.nodes) ≡ true
        → rank n.next < rank k
    pub by_choice :
        (k : String) (n : LocalNode W) (x : String)
        → lookup k g.nodes ≡ some n
        → Chooses n.task x
        → is_set (lookup x g.nodes) ≡ true
        → rank x < rank k
    pub by_catch :
        (k : String) (n : LocalNode W)
        → lookup k g.nodes ≡ some n
        → n.catch ≢ ""
        → rank n.catch < rank k

  outcome_chosen :
      (name : String) (r : Result String) (input output : Obj) (x : String) (w : W)
      → (resume r (λ next. pure (insert "__choice__" (str next) input)) raise w).0 ≡ ok output
      → choice_of name (lookup "__choice__" output) ≡ ok x
      → r ≡ ok x
  unfolding pure raise
  outcome_chosen name (ok next) input output x w h c =
      ground (arith, lookup-insert_self "__choice__" (str next) input)
  outcome_chosen name (err e) input output x w h c = cc
  outcome_chosen name panics input output x w h c = cc
  outcome_chosen name running input output x w h c = cc

  module _ (rt : LocalRuntime W) (pauses : (d : ℤ) → Returns (rt.pause d)) where
    -- what a choice state hands on was chosen by its function
    choice-chosen :
        (fn : Option (ChoiceFunc W)) (name : String) (input output : Obj) (x : String)
        → Yields (run_choice rt fn input) output
        → choice_of name (lookup "__choice__" output) ≡ ok x
        → (f : ChoiceFunc W) × (fn ≡ some f) × Yields (f input) x
    unfolding branch panic
    choice-chosen none name input output x h c = cc h.yields
    choice-chosen (some f) name input output x h c = (
      f,
      refl,
      record {
        before = h.before;
        yields =
            outcome_chosen name (f input h.before).0 input output x (f input h.before).1 h.yields c;
      },
    )

    choice_state-eq :
        (n : LocalNode W) (input : Obj)
        → is_choice n.task.kind ≡ true
        → run_local_state rt n input ≡ run_choice rt n.task.choice_fn input
    unfolding run_local_state
    choice_state-eq n input choice = rw (choice_not_wait n.task.kind choice, choice) refl

    next_choice-eq :
        (n : LocalNode W) (output : Obj)
        → is_choice n.task.kind ≡ true
        → next_local_node n output ≡ choice_of n.name (lookup "__choice__" output)
    unfolding next_local_node
    next_choice-eq n output choice = rw choice refl

    next_plain-eq :
        (n : LocalNode W) (output : Obj)
        → is_choice n.task.kind ≡ false
        → next_local_node n output ≡ ok n.next
    unfolding next_local_node
    next_plain-eq n output plain = rw plain refl

    -- the state after a choice, and after any other
    next-chosen :
        (n : LocalNode W) (input output : Obj) (x : String)
        → is_choice n.task.kind ≡ true
        → Yields (run_local_state rt n input) output
        → next_local_node n output ≡ ok x
        → Chooses n.task x
    next-chosen n input output x choice h c =
        let (fn, e, y) =
          choice-chosen n.task.choice_fn n.name input output x
            (rw (choice_state-eq n input choice) at h) (sym (next_choice-eq n output choice) ∙ c) in
        record { fn = fn; fn_eq = e; input = input; chosen = y }

    module _ (g : LocalGraph W) (rank : String → ℕ) (ranked : Ranked g rank)
        (handlers : (k : String) (n : LocalNode W)
          → lookup k g.nodes ≡ some n
          → HandlersReturn n.task) where
      next-lower :
          (k : String) (n : LocalNode W) (input output : Obj) (x : String)
          → lookup k g.nodes ≡ some n
          → Yields (run_local_state rt n input) output
          → next_local_node n output ≡ ok x
          → is_set (lookup x g.nodes) ≡ true
          → rank x < rank k
      next-lower k n input output x found h c known = elim (Bool-cases (is_choice n.task.kind)) [
        | inl choice ↦ ranked.by_choice k n x found (next-chosen n input output x choice h c) known
        | inr plain ↦
            let same = ok-injective (sym (next_plain-eq n output plain) ∙ c) in
            rw (← same) (ranked.by_next k n found plain (rw same known))
      ]

      next-IsDone : (n : LocalNode W) (output : Obj) → IsDone (next_local_node n output)
      unfolding next_local_node
      next-IsDone n output = elim (Bool-cases (is_choice n.task.kind)) [
        | inl choice ↦ rw choice (choice_of-IsDone n.name _)
        | inr plain ↦ rw plain tt
      ]

      go_on-Returns :
          (current next : String) (again : Exec W (Unit {0}))
          → (is_set (lookup next g.nodes) ≡ true → Returns again)
          → Returns (go_on rt g current next again)
      go_on-Returns current next again h =
          Returns-if _ (Returns-pure tt) (Returns-test _ h (λ _. Returns-raise _))

      caught-Returns :
          (catch : String) (failure : Error) {again : Exec W (Unit {0})}
          → (catch ≢ "" → Returns again)
          → Returns (if catch == "" then raise failure else again)
      caught-Returns catch failure h =
          Returns-test _ (λ _. Returns-raise failure) (λ e. h (ground (arith, eq_iff catch "")))

      local_loop-Returns :
          (fuel : ℕ) (current : String) (input : Obj)
          → rank current < fuel
          → Returns (local_loop rt fuel g current input)
      unfolding local_loop
      local_loop-Returns zero current input low = absurd (omega (arith, low))
      local_loop-Returns (suc fuel) current input low =
          at_node-Returns (lookup current g.nodes) λ n found.
            Returns-branch _ _ _
              (run_local_state-Returns rt pauses n input (handlers current n found))
              (λ output h.
                Returns-branch _ _ _ (Returns-result _ (next-IsDone n output))
                  (λ next e. go_on-Returns current next _ λ known.
                    local_loop-Returns fuel next output (
                      omega (
                        arith,
                        low,
                        next-lower current n input output next found h (Yields-result e) known,
                      )))
                  (λ e. Returns-raise e))
              (λ failure. caught-Returns n.catch _ λ catches.
                local_loop-Returns fuel n.catch _
                  (omega (arith, low, ranked.by_catch current n found catches)))
        where
          at_node-Returns :
              (o : Option (LocalNode W)) {body : LocalNode W → Exec W (Unit {0})}
              → ((n : LocalNode W) → o ≡ some n → Returns (body n))
              → Returns (at_node rt o current body)
          at_node-Returns none h = Returns-raise _
          at_node-Returns (some n) h = h n refl

-- `runLocalGraph` returns, with more fuel than the rank of its entry, on every graph whose edges
-- (next, catch, and what a choice can choose) go down in rank, if the handlers and the pauses return.
pub run_local_graph-Returns :
    {W : Type 0} (rt : LocalRuntime W) (pauses : (d : ℤ) → Returns (rt.pause d)) (g : LocalGraph W)
    (rank : String → ℕ) (ranked : Ranked g rank)
    (handlers : (k : String) (n : LocalNode W) → lookup k g.nodes ≡ some n → HandlersReturn n.task)
    (fuel : ℕ) (input : Obj)
    → rank g.entry < fuel
    → Returns (run_local_graph rt fuel g input)
unfolding run_local_graph
run_local_graph-Returns rt pauses g rank ranked handlers fuel input enough =
    local_loop-Returns rt pauses g rank ranked handlers fuel g.entry input enough
