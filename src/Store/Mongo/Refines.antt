-- ===== src/Store/Mongo/Refines.antt =====
-- The state methods of internal/store/mongo_store.go as an implementation of the view by pairs that
-- Store/Memory/Records has.
use mathlib.Core.Path.{ap₂}
use state_graph.Prelude.{
  All, sym, ◌∙◌, String, ℕ, ◌≡◌, refl, inl, inr, Option, none, some, List, [], ◌∷◌, arith,
  Bool-cases,
}
use state_graph.Values.{Obj}
use state_graph.Exec.{Result, ok, branch}
use state_graph.Store.{Time, StateRecord}
use state_graph.Store.Memory.{MemoryStore, is_completed, output_of}
use state_graph.Store.Memory.Keys.{IsColonFree}
use state_graph.Store.Memory.Records.{
  Records, Call, writes_ahead, marks_running, completes, fails, reads_output, execution_of,
  call_spec,
}
use state_graph.Store.Memory.Refines as Memory
use state_graph.Store.Memory.Refines.{calls_spec, Agree}
use state_graph.Store.Mongo.{Encoding, MongoStore}
use state_graph.Store.Mongo.States.{
  mark_running, complete_state, fail_state, get_state_output, ref_of, stored_output, resolve,
}
use state_graph.Store.Mongo.Tracks.{Follows, Tracks}
use state_graph.Store.Mongo.Updates.{
  IsDriver, find_latest-none, find_latest-some, Matches, update-refines,
}
use state_graph.Store.Mongo.Calls.{state_of, IsInline, IsAdmissible, Admits, call}
use state_graph.Store.Mongo.Ahead.{ahead-refines}

module _ {W : Type 0} (s : MongoStore W) where
  resolve-plain :
      (w : W) (output : Obj) → ref_of output ≡ none → resolve s output w ≡ (ok output, w)
  unfolding resolve branch
  resolve-plain w output h = rw (resolve, h) refl

  -- The replies to a sequence of calls; the times are those of the view.
  unfoldable pub calls : List (Time × Call) → W → List (Result Obj)
  calls [] w = []
  calls ((_, c) ∷ cs) w = let (reply, w') = call s c w in reply ∷ calls cs w'

executions :
    (enc : Encoding) (cs : List (Time × Call)) (records : Records)
    → Admits enc cs records
    → All (λ c. IsColonFree (execution_of c.1)) cs
executions enc [] records a = tt
executions enc ((now, c) ∷ cs) records (p, _, _, rest) =
    (p, executions enc cs (call_spec now c records).1 rest)

module _ {W : Type 0} (s : MongoStore W) (driver : IsDriver s)
    (decimal-injective : (a b : ℕ) → s.encoding.decimal a ≡ s.encoding.decimal b → a ≡ b) where
  module _ (w : W) (records : Records) (t : Tracks s.encoding.decimal (driver.docs w) records) where
    reads-refines :
        (e n : String) (o : Option StateRecord)
        → Follows (driver.docs w) e n o
        → get_state_output s e n w ≡ (output_of o, w)
    unfolding get_state_output branch resolve
    reads-refines e n none f =
        rw (find_latest-none s driver decimal-injective w "store: get state output" e n f) refl
    reads-refines e n (some r) (d, l, shown) = elim (Bool-cases (is_completed r.status)) [
      | inl q ↦
          rw
            (
              find_latest-some s driver decimal-injective w "store: get state output" e n t.named d
                  l,
              shown.status,
              q,
              (shown.output q).0,
              resolve-plain s w r.output (shown.output q).1,
            )
            refl
      | inr q ↦
          rw
            (
              find_latest-some s driver decimal-injective w "store: get state output" e n t.named d
                  l,
              shown.status,
              q,
            )
            refl
    ]

    completes-refines :
        (now : Time) (e n : String) (output : Obj)
        → IsInline s.encoding output
        → IsColonFree e
        → IsColonFree n
        → Matches s driver decimal-injective
            (call s (completes e n output) w)
            (call_spec now (completes e n output) records)
    unfolding call call_spec complete_state stored_output branch
    completes-refines now e n output (bytes, h, small, plain, kept) p p' =
        rw (h, small)
          (update-refines s driver decimal-injective w records t e n _
            (λ d. (refl, refl, refl, refl)) (λ d k. (k.0, kept)) _
            (λ d r shown. record {
              attempt = shown.attempt;
              status = refl;
              output = λ _. (refl, plain);
            })
            (records e n) (t.follows e n p p'))

    call-refines :
        (now : Time) (c : Call)
        → IsColonFree (execution_of c)
        → IsColonFree (state_of c)
        → IsAdmissible s.encoding c records
        → Matches s driver decimal-injective (call s c w) (call_spec now c records)
    unfolding call call_spec mark_running fail_state branch
    call-refines now (writes_ahead r) p p' a =
        ahead-refines s driver decimal-injective w records t r p p' a.0 a.1 now
    call-refines now (marks_running e n) p p' a =
        update-refines s driver decimal-injective w records t e n _ (λ d. (refl, refl, refl, refl))
          (λ d k. k) _
          (λ d r shown. record {
            attempt = shown.attempt;
            status = refl;
            output = λ h. absurd (ground (arith, h));
          })
          (records e n) (t.follows e n p p')
    call-refines now (completes e n output) p p' a = completes-refines now e n output a p p'
    call-refines now (fails e n msg) p p' a =
        update-refines s driver decimal-injective w records t e n _ (λ d. (refl, refl, refl, refl))
          (λ d k. k) _
          (λ d r shown. record {
            attempt = shown.attempt;
            status = refl;
            output = λ h. absurd (ground (arith, h));
          })
          (records e n) (t.follows e n p p')
    call-refines now (reads_output e n) p p' a =
        rw (reads-refines e n (records e n) (t.follows e n p p')) (refl, t)

  -- Over a driver that does what its manual says, with names that hold no colon, a sequence of calls
  -- on state records, in which each write-ahead of a state that is not completed has a higher attempt
  -- than the last each output is small and no lone reference, and BSON gives
  -- each input and output back as it was, gets from the Mongo store the
  -- replies that the map by pairs gives.
  pub mongo_calls-refines :
      (cs : List (Time × Call)) (w : W) (records : Records)
      → Admits s.encoding cs records
      → Tracks s.encoding.decimal (driver.docs w) records
      → calls s cs w ≡ calls_spec cs records
  unfolding calls calls_spec
  mongo_calls-refines [] w records a t = refl
  mongo_calls-refines ((now, c) ∷ cs) w records (p, p', a, rest) t =
      let (same, t') = call-refines w records t now c p p' a in
      ap₂ ◌∷◌ same (mongo_calls-refines cs (call s c w).1 (call_spec now c records).1 rest t')

  -- Under the same conditions, the Mongo store and a memory store that hold the same records give the
  -- same replies.
  pub mongo_calls_eq :
      (cs : List (Time × Call)) (w : W) (m : MemoryStore) (records : Records)
      → Admits s.encoding cs records
      → Tracks s.encoding.decimal (driver.docs w) records
      → Agree m records
      → calls s cs w ≡ Memory.calls cs m
  mongo_calls_eq cs w m records a t h =
      mongo_calls-refines cs w records a t
      ∙ sym (Memory.calls-refines cs m records (executions s.encoding cs records a) h)
