-- ===== src/Store/Mongo/Updates.antt =====
-- The updates of the latest document in internal/store/mongo_store.go, over any driver that does
-- what its manual says, against the view by pairs.
use state_graph.Prelude.{
  Bool, String, ℕ, ◌≡◌, refl, sym, ◌∙◌, ap, inl, inr, true, eq_iff, Option, none, some, arith,
  Bool-cases,
}
use state_graph.Values.{Obj, state_not_found}
use state_graph.Exec.{Result, ok, err, branch}
use state_graph.Store.{StateRecord}
use state_graph.Store.Memory.{is_completed}
use state_graph.Store.Memory.Records.{Records, put, no_value, change}
use state_graph.Store.Mongo.Driver.{Documented, write}
use state_graph.Store.Mongo.{Encoding, StateDoc, MongoStore, of_state, latest}
use state_graph.Store.Mongo.States.{find_latest, update_latest_state}
use state_graph.Store.Mongo.Tracks.{
  Docs, IsStored, IsNamed, IsLatest, Shows, Follows, Tracks, unique, place,
}
use state_graph.Store.Mongo.Writes.{write-Tracks, Replaces}

abbrev pub survives_or_null : Encoding → Option Obj → Bool
survives_or_null enc none = true
survives_or_null enc (some m) = enc.survives m

-- its maps come back as they were
abbrev pub Survives : Encoding → StateDoc → Type 0
Survives enc d = (survives_or_null enc d.input ≡ true) × (survives_or_null enc d.output ≡ true)

abbrev pub IsDriver : {W : Type 0} → MongoStore W → Type 0
IsDriver s = Documented (λ d. d.id) (Survives s.encoding) s.states

module _ {W : Type 0} (s : MongoStore W) (driver : IsDriver s)
    (decimal-injective : (a b : ℕ) → s.encoding.decimal a ≡ s.encoding.decimal b → a ≡ b) where
  module _ (w : W) (what e n : String) where
    pub find_latest-none :
        Follows (driver.docs w) e n none → find_latest s what e n w ≡ (err state_not_found, w)
    unfolding find_latest branch
    find_latest-none f = elim (driver.found (of_state e n) latest w) [
      | inl (d, _, s', m, _) ↦ absurd (ground (arith, f d s', m))
      | inr (h, _) ↦ rw (h) refl
    ]

    pub find_latest-some :
        ((d : StateDoc) → IsStored (driver.docs w) d → IsNamed s.encoding.decimal d)
        → (d : StateDoc) → IsLatest (driver.docs w) e n d
        → find_latest s what e n w ≡ (ok d, w)
    unfolding find_latest branch
    find_latest-some named d l = elim (driver.found (of_state e n) latest w) [
      | inl (d', h, s', m, first) ↦
          rw
            (
              h,
              unique s.encoding.decimal decimal-injective (driver.docs w) named e n d d' l s' m
                  (first d l.stored l.here),
            )
            refl
      | inr (_, f) ↦ absurd (ground (arith, f d l.stored, l.here))
    ]

  abbrev pub Matches : Result Obj × W → Result Obj × Records → Type 0
  Matches (reply, w) (reply', records) =
      (reply ≡ reply') × Tracks s.encoding.decimal (driver.docs w) records

  here :
      {a b e n : String}
      → a ≡ e
      → b ≡ n
      → (d : StateDoc) → of_state a b d ≡ true
      → of_state e n d ≡ true
  here p q d m = rw (sym p, sym q) m

  put_at :
      {a b e n : String} (docs : Docs) (records : Records) (r : StateRecord)
      → a ≡ e
      → b ≡ n
      → Tracks s.encoding.decimal docs (put a b r records)
      → Tracks s.encoding.decimal docs (put e n r records)
  put_at docs records r p q h = rw (sym p, sym q) h

  module _ (w : W) (records : Records) (t : Tracks s.encoding.decimal (driver.docs w) records)
      (e n : String) where
    module _ (f : StateDoc → StateDoc)
        (keeps : (d : StateDoc)
          → ((f d).id ≡ d.id)
            × ((f d).execution_id ≡ d.execution_id)
            × ((f d).state_name ≡ d.state_name)
            × ((f d).attempt ≡ d.attempt))
        (survives : (d : StateDoc) → Survives s.encoding d → Survives s.encoding (f d)) where
      update-none :
          Follows (driver.docs w) e n none
          → update_latest_state s e n f w ≡ (err state_not_found, w)
      unfolding update_latest_state branch
      update-none h = rw (find_latest-none w "store: find state for update" e n h) refl

      pub update-some :
          (d : StateDoc)
          → IsLatest (driver.docs w) e n d
          → (w' : W) × (update_latest_state s e n f w ≡ (ok tt, w'))
            × ((key : String) → driver.docs w' key ≡ write (driver.docs w) d.id (f d) key)
      unfolding update_latest_state branch
      update-some d l =
          let (w', h, docs) =
            driver.updated d.id f d w l.stored (keeps d).0
              (survives d (driver.stable d.id d w l.stored)) in
          (w', rw (find_latest-some w "store: find state for update" e n t.named d l, h) refl, docs)

      pub latest-Replaces :
          (d : StateDoc) → IsLatest (driver.docs w) e n d → Replaces (driver.docs w) (f d)
      latest-Replaces d l other s' m q =
          let (p, p1, p2, p3) = keeps d in
          let (q1, q2) = place e n d l.here in
          let m' = here (p1 ∙ q1) (p2 ∙ q2) other m in
          (
            rw (p3) (l.highest other s' m'),
            elim (Bool-cases (is_completed other.status)) [
              | inr c ↦ c
              | inl c ↦ absurd (
                  ground (
                    arith,
                    q,
                    eq_iff (f d).id other.id,
                    p ∙ sym (ap (λ x. x.id) (l.last_completed other s' m' c)),
                  ))
            ],
          )

      module _ (g : StateRecord → StateRecord)
          (shows : (d : StateDoc) (r : StateRecord) → Shows d r → Shows (f d) (g r)) where
        updated-Tracks :
            (d : StateDoc) (r : StateRecord) (w' : W)
            → IsLatest (driver.docs w) e n d
            → Shows d r
            → ((key : String) → driver.docs w' key ≡ write (driver.docs w) d.id (f d) key)
            → Tracks s.encoding.decimal (driver.docs w') (put e n (g r) records)
        updated-Tracks d r w' l shown docs =
            let (p, p1, p2, p3) = keeps d in
            let (q1, q2) = place e n d l.here in
            let named = t.named d l.stored in
            put_at (driver.docs w') records (g r) (p1 ∙ q1) (p2 ∙ q2) (
              write-Tracks s.encoding.decimal decimal-injective (driver.docs w) (driver.docs w')
                (f d) (λ key. docs key ∙ ap (λ i. write (driver.docs w) i (f d) key) (sym p))
                records
                (record {
                  id = rw (p, p1, p2, p3) named.id;
                  execution = rw (p1) named.execution;
                  state = rw (p2) named.state;
                })
                t (latest-Replaces d l) (g r) (shows d r shown))

        pub update-refines :
            (o : Option StateRecord)
            → Follows (driver.docs w) e n o
            → Matches (no_value (update_latest_state s e n f w)) (change e n g o records)
        update-refines none h = rw (update-none h) (refl, t)
        update-refines (some r) (d, l, shown) =
            let (w', h, docs) = update-some d l in rw (h) (refl, updated-Tracks d r w' l shown docs)
