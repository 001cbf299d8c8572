-- ===== src/Executor/Retry.antt =====
-- The retries of a state, on the memory store, with a handler whose outcomes are scheduled.
use state_graph.Prelude.{
  String, ℕ, zero, suc, ℤ, ◌+◌, ◌-◌, ◌<◌, ◌≤◌, ◌≡◌, refl, sym, ap, ◌∙◌, Bool, true, false, Option,
  none, some, arith, if◌then◌else◌,
}
use state_graph.Dict.{lookup, lookup-insert_self}
use state_graph.Values.{Obj, pending, running, failed, Error}
use state_graph.Exec.{Result, ok, err, Exec, pure, raise, act, branch}
use state_graph.Graph.{Node}
use state_graph.Workflow.{RetryPolicy}
use state_graph.Store.{StateRecord}
use state_graph.Store.Memory.{state_key, is_completed, holds_completed}
use state_graph.Store.Memory.Services.{World}
use state_graph.Store.Memory.Rows.{
  mark_running-found, fail_state-found, write_ahead_state-fresh, write_row,
}
use state_graph.InProcess.{local_executor}
use state_graph.Executor.{
  Runtime, state_record, prepare_retry, retry_loop, apply_retry, max_attempts, backoff,
}

-- Sleeping changes no more than the clock.
pub record IsQuiet {U : Type 0} (rt : Runtime (World U)) : Type 0 where
  pub sleep_memory : (d : ℤ) (w : World U) → (rt.sleep d w).memory ≡ w.memory
  pub sleep_user : (d : ℤ) (w : World U) → (rt.sleep d w).user ≡ w.user

-- the record of a state is there and says that it runs
pub record IsStarted {U : Type 0} (key : String) (w : World U) : Type 0 where
  pub row : StateRecord
  pub found : lookup key w.memory.states ≡ some row
  pub status : row.status ≡ running

holds-found :
    (o : Option StateRecord) (r : StateRecord)
    → o ≡ some r
    → is_completed r.status ≡ false
    → holds_completed o ≡ false
holds-found o r e h = rw e h

module _ {U : Type 0} (rt : Runtime (World U)) (quiet : IsQuiet rt)
    (handler : String → Obj → Exec (World U) Obj) (exec_id : String) where
  paused :
      (b : Bool) (d : ℤ) (key : String) {w : World U}
      → IsStarted key w
      → (w' : World U) × ((if b then act (rt.sleep d) else pure tt) w ≡ (ok tt, w'))
        × IsStarted key w'
        × (w'.user ≡ w.user)
  unfolding act pure
  paused false d key {w} started = (w, refl, started, refl)
  paused true d key {w} started = (
    rt.sleep d w,
    refl,
    record {
      row = started.row;
      found = ap (λ m. lookup key m.states) (quiet.sleep_memory d w) ∙ started.found;
      status = started.status;
    },
    quiet.sleep_user d w,
  )

  -- the next round starts with the record running again, and nothing else was called
  prepare_retry-IsStarted :
      (n : Node (World U)) (input : Obj) (attempt : ℕ) (last : Error) (w : World U)
      → IsStarted (state_key exec_id n.name) w
      → (w' : World U) × (prepare_retry rt (local_executor handler) exec_id n input attempt last w
          ≡ (ok tt, w'))
        × IsStarted (state_key exec_id n.name) w'
        × (w'.user ≡ w.user)
  unfolding prepare_retry branch
  prepare_retry-IsStarted n input attempt last w started =
      let key = state_key exec_id n.name in
      let failed_row = record started.row {
        status = failed;
        error = rt.message last;
        updated_at = w.clock;
      } in
      let row = state_record rt (local_executor handler) exec_id n.name input attempt none in
      let written = record row { status = pending; created_at = w.clock; updated_at = w.clock } in
      let m1 = write_row key failed_row w.memory in
      let m2 = write_row key written m1 in
      rw
        (
          fail_state-found w.clock exec_id n.name w.memory (rt.message last) started.found,
          write_ahead_state-fresh w.clock row m1
              (holds-found _ failed_row (lookup-insert_self key failed_row w.memory.states) refl),
          mark_running-found w.clock exec_id n.name m2 (lookup-insert_self key written m1.states),
        )
        (paused _ _ key (record {
          row = record written { status = running; updated_at = w.clock };
          found = lookup-insert_self key _ _;
          status = refl;
        }))

-- what the handler of a state does at its n-th call is scheduled; the world counts the calls
abbrev pub scheduled : (ℕ → Result Obj) → String → Obj → Exec (World ℕ) Obj
scheduled outcome name input w = (outcome w.user, record w { user = suc w.user })

-- calls that all fail
abbrev pub AllFail : (ℕ → Result Obj) → ℕ → ℕ → Type 0
AllFail outcome first count =
    (i : ℕ) → i < count → (failure : Error) × (outcome (first + i) ≡ err failure)

now_call : (outcome : ℕ → Result Obj) (u : ℕ) {r : Result Obj} → outcome (u + 0) ≡ r → outcome u ≡ r
now_call outcome u h = ap outcome (omega arith) ∙ h

AllFail-tail :
    (outcome : ℕ → Result Obj) {first next : ℕ} (count : ℕ)
    → next ≡ suc first
    → AllFail outcome first (suc count)
    → AllFail outcome next count
AllFail-tail outcome {first} {next} count same fails i low =
    let (failure, e0) = fails (suc i) (omega (arith, low)) in
    (failure, ap outcome (omega (arith, same)) ∙ e0)

module _ (rt : Runtime (World ℕ)) (quiet : IsQuiet rt) (outcome : ℕ → Result Obj)
    (exec_id : String) where
  abbrev counted : state_graph.Executor.Executor (World ℕ)
  counted = local_executor (scheduled outcome)

  -- one call, and the rounds that are left after it
  abbrev rounds : ℕ → Node (World ℕ) → Obj → ℕ → Exec (World ℕ) Obj
  rounds left n input attempt =
      branch (scheduled outcome n.name input) pure
        (λ failure. retry_loop rt counted exec_id left n input attempt failure)

  called :
      (n : Node (World ℕ)) {w : World ℕ}
      → IsStarted (state_key exec_id n.name) w
      → IsStarted (state_key exec_id n.name) (record w { user = suc w.user })
  called n started = record { row = started.row; found = started.found; status = started.status }

  -- a call that fails is followed by the next round, from a world with one more call
  rounds-fail :
      (left : ℕ) (n : Node (World ℕ)) (input : Obj) (attempt : ℕ) (w : World ℕ) (failure : Error)
      → IsStarted (state_key exec_id n.name) w
      → outcome w.user ≡ err failure
      → (w' : World ℕ) × (rounds (suc left) n input attempt w
          ≡ rounds left n input (suc attempt) w')
        × IsStarted (state_key exec_id n.name) w'
        × (w'.user ≡ suc w.user)
  unfolding retry_loop branch
  rounds-fail left n input attempt w failure started fails =
      let (w', e, started', same) =
        prepare_retry-IsStarted rt quiet (scheduled outcome) exec_id n input attempt failure _
          (called n started) in
      (w', rw (fails, e) refl, started', same)

  rounds-succeed :
      (left k : ℕ) (n : Node (World ℕ)) (input : Obj) (attempt : ℕ) (w : World ℕ) (out : Obj)
      → IsStarted (state_key exec_id n.name) w
      → k ≤ left
      → AllFail outcome w.user k
      → outcome (w.user + k) ≡ ok out
      → let (r, w') = rounds left n input attempt w in (r ≡ ok out) × (w'.user ≡ suc (w.user + k))
  unfolding branch pure
  rounds-succeed left zero n input attempt w out started low fails good =
      rw (now_call outcome w.user good) (refl, omega arith)
  rounds-succeed zero (suc k) n input attempt w out started low fails good =
      absurd (omega (arith, low))
  rounds-succeed (suc left) (suc k) n input attempt w out started low fails good =
      let (failure, e0) = fails 0 (omega arith) in
      let (w', e, started', same) =
        rounds-fail left n input attempt w failure started (now_call outcome w.user e0) in
      let (r, calls) =
        rounds-succeed left k n input (suc attempt) w' out started' (omega (arith, low))
          (AllFail-tail outcome k same fails) (ap outcome (omega (arith, same)) ∙ good) in
      rw e (r, omega (arith, same, calls))

  rounds-give_up :
      (left : ℕ) (n : Node (World ℕ)) (input : Obj) (attempt : ℕ) (w : World ℕ)
      → IsStarted (state_key exec_id n.name) w
      → AllFail outcome w.user (suc left)
      → let (r, w') = rounds left n input attempt w in
        (r ≡ outcome (w.user + left)) × (w'.user ≡ suc (w.user + left))
  unfolding branch raise retry_loop
  rounds-give_up zero n input attempt w started fails =
      let (failure, e0) = fails 0 (omega arith) in
      rw (now_call outcome w.user e0) (sym e0, omega arith)
  rounds-give_up (suc left) n input attempt w started fails =
      let (failure, e0) = fails 0 (omega arith) in
      let (w', e, started', same) =
        rounds-fail left n input attempt w failure started (now_call outcome w.user e0) in
      let (r, calls) =
        rounds-give_up left n input (suc attempt) w' started'
          (AllFail-tail outcome (suc left) same fails) in
      rw e (r ∙ ap outcome (omega (arith, same)), omega (arith, same, calls))

-- the number of calls that a retry policy allows is at least one
max_attempts-positive : (p : Option RetryPolicy) → 0 < max_attempts p
max_attempts-positive none = omega arith
max_attempts-positive (some p) = ground arith

-- A state whose record runs, and whose handler fails k times and then returns an output, is run
-- exactly k + 1 times and returns that output, if its policy allows more than k attempts.
pub apply_retry-succeeds :
    (rt : Runtime (World ℕ)) (quiet : IsQuiet rt) (outcome : ℕ → Result Obj) (exec_id : String)
    (k : ℕ) (n : Node (World ℕ)) (input : Obj) (w : World ℕ) (out : Obj)
    → IsStarted (state_key exec_id n.name) w
    → k < max_attempts n.retry
    → AllFail outcome w.user k
    → outcome (w.user + k) ≡ ok out
    → let (r, w') = apply_retry rt (local_executor (scheduled outcome)) exec_id n input w in
      (r ≡ ok out) × (w'.user ≡ suc (w.user + k))
unfolding apply_retry
apply_retry-succeeds rt quiet outcome exec_id k n input w out started low fails good =
    rounds-succeed rt quiet outcome exec_id (max_attempts n.retry - 1) k n input 2 w out started
      (omega (arith, low)) fails good

-- A state whose record runs, and whose handler fails as often as the policy allows attempts, is run
-- exactly that often and returns what the last call returned.
pub apply_retry-gives_up :
    (rt : Runtime (World ℕ)) (quiet : IsQuiet rt) (outcome : ℕ → Result Obj) (exec_id : String)
    (n : Node (World ℕ)) (input : Obj) (w : World ℕ)
    → IsStarted (state_key exec_id n.name) w
    → AllFail outcome w.user (max_attempts n.retry)
    → let (r, w') = apply_retry rt (local_executor (scheduled outcome)) exec_id n input w in
      (r ≡ outcome (w.user + (max_attempts n.retry - 1)))
      × (w'.user ≡ w.user + max_attempts n.retry)
unfolding apply_retry
apply_retry-gives_up rt quiet outcome exec_id n input w started fails =
    let positive = max_attempts-positive n.retry in
    let (r, calls) =
      rounds-give_up rt quiet outcome exec_id (max_attempts n.retry - 1) n input 2 w started
        (λ i low. fails i (omega (arith, low, positive))) in
    (r, omega (arith, calls, positive))
