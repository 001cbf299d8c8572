-- ===== src/Store/Mongo/Ahead.antt =====
-- WriteAheadState of internal/store/mongo_store.go against the view by pairs.
use state_graph.Prelude.{
  String, ℕ, ◌≡◌, refl, sym, ◌∙◌, ap, subst, inl, inr, Bool, true, false, ◌&&◌, eq_refl, ◌<◌,
  Option, none, some, arith, Option-cases,
}
use state_graph.Exec.{branch}
use state_graph.Store.{Time, StateRecord}
use state_graph.Store.Memory.{is_completed, holds_completed}
use state_graph.Store.Memory.Keys.{IsColonFree}
use state_graph.Store.Memory.Records.{Records, no_value, writes_ahead, call_spec}
use state_graph.Store.Mongo.Driver.{unsorted}
use state_graph.Store.Mongo.{input_to_m, StateDoc, MongoStore, of_state}
use state_graph.Store.Mongo.States.{write_ahead_state, insert_state, new_state_doc}
use state_graph.Store.Mongo.Tracks.{IsStored, Follows, IsNamed, Tracks}
use state_graph.Store.Mongo.Writes.{write-Tracks}
use state_graph.Store.Mongo.Calls.{IsLater}
use state_graph.Store.Mongo.Tracks.{same_place}
use state_graph.Store.Mongo.Updates.{IsDriver, Matches}

both : (a b : Bool) → (a && b) ≡ true → (a ≡ true) × (b ≡ true)
both true true h = (refl, refl)
both true false h = (refl, h)
both false b h = (h, absurd (ground (arith, h)))

second : (a b : Bool) → a ≡ true → (a && b) ≡ false → b ≡ false
second a b h h' = ground (arith, h, h')

module _ {W : Type 0} (s : MongoStore W) (driver : IsDriver s)
    (decimal-injective : (a b : ℕ) → s.encoding.decimal a ≡ s.encoding.decimal b → a ≡ b) (w : W)
    (records : Records) (t : Tracks s.encoding.decimal (driver.docs w) records) where
  -- a completed document of the state says that the record is completed
  pub some_completed :
      (e n : String) (d : StateDoc) (o : Option StateRecord)
      → IsStored (driver.docs w) d
      → (of_state e n d && is_completed d.status) ≡ true
      → Follows (driver.docs w) e n o
      → holds_completed o ≡ true
  some_completed e n d none s' m f = absurd (ground (arith, m, f d s'))
  some_completed e n d (some r) s' m (d0, l, shown) =
      let (m1, m2) = both _ _ m in
      ap is_completed (sym shown.status)
      ∙ ap (λ x. is_completed x.status) (sym (l.last_completed d s' m1 m2))
      ∙ m2

  pub none_completed :
      (e n : String) (o : Option StateRecord)
      → ((d : StateDoc)
          → IsStored (driver.docs w) d
          → (of_state e n d && is_completed d.status) ≡ false)
      → Follows (driver.docs w) e n o
      → holds_completed o ≡ false
  none_completed e n none none_is f = refl
  none_completed e n (some r) none_is (d, l, shown) =
      ap is_completed (sym shown.status) ∙ second _ _ l.here (none_is d l.stored)

  older :
      (e n : String) (a : ℕ) (o : Option StateRecord) (d : StateDoc)
      → Follows (driver.docs w) e n o
      → IsLater a o
      → holds_completed o ≡ false
      → IsStored (driver.docs w) d
      → of_state e n d ≡ true
      → d.attempt < a
  older e n a none d f later q s' m = absurd (ground (arith, m, f d s'))
  older e n a (some r) d (d0, l, shown) later q s' m =
      omega (arith, later q, l.highest d s' m, shown.attempt)

  module _ (r : StateRecord) (p : IsColonFree r.execution_id) (p' : IsColonFree r.state_name)
      (later : IsLater r.attempt (records r.execution_id r.state_name))
      (plain : s.encoding.survives (input_to_m r.input) ≡ true) where
    abbrev follows_here :
        Follows (driver.docs w) r.execution_id r.state_name (records r.execution_id r.state_name)
    follows_here = t.follows r.execution_id r.state_name p p'

    abbrev new : StateDoc
    new = new_state_doc s.encoding (s.now w) r

    named : IsNamed s.encoding.decimal new
    named = record { id = refl; execution = p; state = p' }

    not_stored :
        holds_completed (records r.execution_id r.state_name) ≡ false
        → (d : StateDoc) → driver.docs w new.id ≡ some d
        → ⊥
    not_stored q d h =
        let k = driver.keyed new.id d w h in
        let stored = subst (λ key. driver.docs w key ≡ some d) (sym k) h in
        let (p1, p2, p3) =
          same_place s.encoding.decimal decimal-injective new d named (t.named d stored) (sym k) in
        let here : of_state r.execution_id r.state_name d ≡ true =
          rw (p1, p2, eq_refl, eq_refl) refl in
        omega (
          arith,
          p3,
          older r.execution_id r.state_name r.attempt _ d follows_here later q stored here,
        )

    fresh :
        holds_completed (records r.execution_id r.state_name) ≡ false → driver.docs w new.id ≡ none
    fresh q = elim (Option-cases (driver.docs w new.id)) [
      | inl h ↦ h
      | inr (d, h) ↦ absurd (not_stored q d h)
    ]

    pub ahead-refines :
        (now : Time)
        → Matches s driver decimal-injective
            (no_value (write_ahead_state s r w))
            (call_spec now (writes_ahead r) records)
    unfolding write_ahead_state call_spec branch insert_state
    ahead-refines now =
        elim (driver.found (λ d. of_state r.execution_id r.state_name d && is_completed d.status)
          unsorted w) [
            | inl (d, h, s', m, _) ↦
                rw (h, some_completed r.execution_id r.state_name d _ s' m follows_here) (refl, t)
            | inr (h, none_is) ↦
                (let q = none_completed r.execution_id r.state_name _ none_is follows_here in
                  let (w', h', docs) = driver.inserted new w (plain, refl) (fresh q) in
                  rw (h, h', q)
                    (
                      refl,
                      write-Tracks s.encoding.decimal decimal-injective (driver.docs w)
                          (driver.docs w') new docs records named t
                          (λ other s' m _. (
                            omega (
                              arith,
                              older r.execution_id r.state_name r.attempt _ other follows_here later
                                  q s' m,
                            ),
                            second _ _ m (none_is other s'),
                          ))
                          _
                          (record {
                            attempt = refl;
                            status = refl;
                            output = λ c. absurd (ground (arith, c));
                          }),
                    ))
          ]
