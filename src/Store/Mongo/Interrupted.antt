-- ===== src/Store/Mongo/Interrupted.antt =====
-- A state of internal/store/mongo_store.go whose attempt was interrupted.
use state_graph.Prelude.{ℕ, ◌≡◌, refl, sym, ◌∙◌, subst, inl, inr, false, ◌&&◌, eq_refl, some, arith}
use state_graph.Exec.{err, branch}
use state_graph.Store.{StateRecord}
use state_graph.Store.Memory.{is_completed}
use state_graph.Store.Memory.Keys.{IsColonFree}
use state_graph.Store.Memory.Records.{Records}
use state_graph.Store.Mongo.Driver.{unsorted}
use state_graph.Store.Mongo.{MongoStore, of_state}
use state_graph.Store.Mongo.States.{write_ahead_state, insert_state, new_state_doc}
use state_graph.Store.Mongo.Tracks.{Follows, Tracks}
use state_graph.Store.Mongo.Updates.{IsDriver}
use state_graph.Store.Mongo.Updates.{find_latest-some}
use state_graph.Store.Mongo.Ahead.{some_completed}
use state_graph.Store.Mongo.Tracks.{same_id}
use state_graph.Store.Mongo.States.{get_state_output}
use state_graph.Values.{state_not_completed, state_already_terminal}

module _ {W : Type 0} (s : MongoStore W) (driver : IsDriver s)
    (decimal-injective : (a b : ℕ) → s.encoding.decimal a ≡ s.encoding.decimal b → a ≡ b) (w : W)
    (records : Records) (t : Tracks s.encoding.decimal (driver.docs w) records) where
  interrupted :
      (r r0 : StateRecord)
      → Follows (driver.docs w) r.execution_id r.state_name (some r0)
      → is_completed r0.status ≡ false
      → r.attempt ≡ r0.attempt
      → (write_ahead_state s r w ≡ (err state_already_terminal, w))
        × (get_state_output s r.execution_id r.state_name w ≡ (err state_not_completed, w))
  unfolding write_ahead_state branch insert_state get_state_output
  interrupted r r0 (d, l, shown) open_ same =
      let new = new_state_doc s.encoding (s.now w) r in
      let id : d.id ≡ new.id =
        (t.named d l.stored).id
        ∙ same_id s.encoding.decimal r.execution_id r.state_name new d (rw (eq_refl, eq_refl) refl)
            l.here (same ∙ sym shown.attempt) in
      (
        elim (driver.found (λ d. of_state r.execution_id r.state_name d && is_completed d.status)
            unsorted w) [
              | inl (d', h, s', m, _) ↦ absurd (
                  ground (
                    arith,
                    open_,
                    some_completed s driver decimal-injective w records t r.execution_id
                        r.state_name d' (some r0) s' m (d, l, shown),
                  ))
              | inr (h, _) ↦
                  rw (h, driver.refused new d w (subst (λ k. driver.docs w k ≡ some d) id l.stored))
                    refl
            ],
        rw
            (
              find_latest-some s driver decimal-injective w "store: get state output" r.execution_id
                  r.state_name t.named d l,
              shown.status,
              open_,
            )
            refl,
      )

  -- When the state has a record that is not completed, a write-ahead with the attempt of that record
  -- is refused as if the state were done, and the output that the executor then asks for is refused
  -- as not completed. Neither call changes anything.
  pub interrupted-write_ahead_state :
      (r r0 : StateRecord)
      → IsColonFree r.execution_id
      → IsColonFree r.state_name
      → records r.execution_id r.state_name ≡ some r0
      → is_completed r0.status ≡ false
      → r.attempt ≡ r0.attempt
      → (write_ahead_state s r w ≡ (err state_already_terminal, w))
        × (get_state_output s r.execution_id r.state_name w ≡ (err state_not_completed, w))
  interrupted-write_ahead_state r r0 p p' found open_ same =
      interrupted r r0
        (subst (Follows (driver.docs w) r.execution_id r.state_name) found
          (t.follows r.execution_id r.state_name p p'))
        open_ same
