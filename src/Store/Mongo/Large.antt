-- ===== src/Store/Mongo/Large.antt =====
-- Outputs that internal/store/mongo_store.go keeps in the object store.
use Prim.Native.String.{◌++◌ as ◌<>◌}
use Prim.Native.Char.{code}
use text.Mathlib.TextLemmas.{nil-append, cons-append}
use state_graph.Prelude.{
  Bool, [], ◌∷◌, String, ℕ, ◌≡◌, refl, sym, ◌∙◌, ap, subst, ◌≢◌, true, false, ◌==◌, some, arith,
  ltb, eq-false_of_ne,
}
use state_graph.Values.{Obj, completed, str}
use state_graph.Exec.{ok, branch}
use state_graph.Store.{StateRecord}
use state_graph.Store.Memory.Keys.{IsColonFree}
use state_graph.Store.Memory.Records.{Records}
use state_graph.Store.Mongo.Objects.{
  read_all-Carries, KeepsObjects, put_object, get_object, ObjectStore, without_scheme, after_slash,
  is_empty,
}
use state_graph.Store.Mongo.{StateDoc, MongoStore, extract_s3_key}
use state_graph.Store.Mongo.States.{
  stored_output, offload, large_key, complete_state, get_state_output, find_latest, resolve,
  dereference,
}
use state_graph.Store.Mongo.Tracks.{place, IsNamed, Follows, IsLatest, Tracks}
use state_graph.Store.Mongo.Updates.{IsDriver, find_latest-some, latest-Replaces}
use state_graph.Store.Mongo.Writes.{newest_at, written-IsNamed}

abbrev pub IsSlashFree : String → Type 0
IsSlashFree String.[] = Unit
IsSlashFree (String.◌∷◌ c s) = (code c ≢ 47) × IsSlashFree s

after_slash-append :
    (bucket key : String) → IsSlashFree bucket → after_slash (bucket <> ("/" <> key)) ≡ some key
unfolding after_slash
after_slash-append String.[] key p = rw (nil-append, cons-append, nil-append) refl
after_slash-append (String.◌∷◌ c s) key p =
    rw (cons-append, after_slash-append s key p.1) (ground (arith, p.0))

scheme-append :
    (x : String)
    → ("s3://" <> x)
      ≡ String.◌∷◌ "s" (String.◌∷◌ "3" (String.◌∷◌ ":" (String.◌∷◌ "/" (String.◌∷◌ "/" x))))
scheme-append x =
    cons-append "s" "3://" x
    ∙ ap (String.◌∷◌ "s") (
        cons-append "3" "://" x
        ∙ ap (String.◌∷◌ "3") (
            cons-append ":" "//" x
            ∙ ap (String.◌∷◌ ":") (
                cons-append "/" "/" x
                ∙ ap (String.◌∷◌ "/") (cons-append "/" "" x ∙ ap (String.◌∷◌ "/") (nil-append x)))))

without_scheme-append : (x : String) → without_scheme ("s3://" <> x) ≡ some x
unfolding without_scheme
without_scheme-append x = rw (scheme-append x) refl

uri_not_empty : (x : String) → (("s3://" <> x) == "") ≡ false
uri_not_empty x =
    eq-false_of_ne _ _ λ h. absurd (ground (arith, ap is_empty (sym (scheme-append x) ∙ h)))

extract_s3_key-ref :
    (bucket key : String)
    → IsSlashFree bucket
    → extract_s3_key ("s3://" <> (bucket <> ("/" <> key))) ≡ key
unfolding extract_s3_key
extract_s3_key-ref bucket key p =
    rw (without_scheme-append (bucket <> ("/" <> key)), after_slash-append bucket key p) refl

module _ {W : Type 0} (s : MongoStore W) (driver : IsDriver s)
    (decimal-injective : (a b : ℕ) → s.encoding.decimal a ≡ s.encoding.decimal b → a ≡ b)
    (objects : ObjectStore W) (client : KeepsObjects objects.client)
    (docs_kept : (bucket key bytes : String) (w : W)
      → driver.docs (objects.client.put_object bucket key bytes w).1 ≡ driver.docs w)
    (objects_kept : (p : StateDoc → Bool) (f : StateDoc → StateDoc) (w : W)
      → client.holds (s.states.update_one p f w).1 ≡ client.holds w)
    (here : s.object_store ≡ some objects) (slash_free : IsSlashFree objects.bucket_name)
    (output : Obj) (bytes : String) (marshalled : s.encoding.marshal output ≡ ok bytes)
    (unmarshalled : s.encoding.unmarshal bytes ≡ ok output)
    (refs_survive : (uri : String) → s.encoding.survives (("_ref", str uri) ∷ []) ≡ true)
    (large : ltb 1048576 (s.encoding.byte_length bytes) ≡ true) (w : W) (records : Records)
    (t : Tracks s.encoding.decimal (driver.docs w) records) (e n : String) where
  abbrev ref_to : StateDoc → Obj
  ref_to d =
      (
        "_ref",
        str ("s3://" <> (objects.bucket_name <> ("/" <> large_key s.encoding e n d.attempt))),
      )
      ∷ []

  -- what is read where the latest document is completed and refers to the object
  reads :
      (w' : W) (d : StateDoc)
      → find_latest s "store: get state output" e n w' ≡ (ok d, w')
      → d.status ≡ completed
      → d.output ≡ some (ref_to d)
      → client.holds w' objects.bucket_name (large_key s.encoding e n d.attempt) ≡ some bytes
      → get_state_output s e n w' ≡ (ok output, w')
  unfolding get_state_output branch resolve dereference get_object
  reads w' d h done stored held =
      let key = large_key s.encoding e n d.attempt in
      let (chunks, got, whole) = client.delivered objects.bucket_name key bytes w' held in
      rw
        (
          h,
          done,
          stored,
          resolve,
          uri_not_empty (objects.bucket_name <> ("/" <> key)),
          here,
          extract_s3_key-ref objects.bucket_name key slash_free,
          got,
          read_all-Carries chunks bytes whole,
          unmarshalled,
        )
        refl

  abbrev done_with : W → Obj → StateDoc → StateDoc
  done_with w1 ref d = record d { status = completed; output = some ref; updated_at = s.now w1 }

  completes :
      (d : StateDoc)
      → IsLatest (driver.docs w) e n d
      → (w' : W) × (complete_state s e n output w ≡ (ok tt, w'))
        × (get_state_output s e n w' ≡ (ok output, w'))
  unfolding complete_state stored_output offload put_object branch
  completes d l =
      let key = large_key s.encoding e n d.attempt in
      let (w1, put, held) = client.kept objects.bucket_name key bytes w in
      let same : driver.docs w1 ≡ driver.docs w =
        ap driver.docs (ap (λ x. x.1) (sym put)) ∙ docs_kept objects.bucket_name key bytes w in
      let t1 : Tracks s.encoding.decimal (driver.docs w1) records =
        subst (λ x. Tracks s.encoding.decimal x records) (sym same) t in
      let l1 : IsLatest (driver.docs w1) e n d = subst (λ x. IsLatest x e n d) (sym same) l in
      let f = done_with w1 (ref_to d) in
      let (w2, updated, docs2) =
        driver.updated d.id f d w1 l1.stored refl
          ((driver.stable d.id d w1 l1.stored).0, refs_survive _) in
      let replaces =
        latest-Replaces s driver decimal-injective w1 records t1 e n f
          (λ d. (refl, refl, refl, refl)) (λ d k. (k.0, refs_survive _)) d l1 in
      let named : IsNamed s.encoding.decimal (f d) = record {
        id = (t.named d l.stored).id;
        execution = (t.named d l.stored).execution;
        state = (t.named d l.stored).state;
      } in
      let l2 =
        newest_at s.encoding.decimal decimal-injective (driver.docs w1) (driver.docs w2) (f d) docs2
          records named t1 replaces e n (place e n d l.here) in
      let named2 =
        written-IsNamed s.encoding.decimal decimal-injective (driver.docs w1) (driver.docs w2) (f d)
          docs2 records named t1 in
      (
        w2,
        rw
            (
              marshalled,
              large,
              here,
              find_latest-some s driver decimal-injective w "store: find state for large output" e n
                  t.named d l,
              put,
              find_latest-some s driver decimal-injective w1 "store: find state for update" e n
                  t1.named d l1,
              updated,
            )
            refl,
        reads w2 (f d)
            (find_latest-some s driver decimal-injective w2 "store: get state output" e n named2
              (f d) l2)
            refl refl
            (ap (λ h. h objects.bucket_name key)
                (ap (λ x. client.holds x.1) (sym updated) ∙ objects_kept _ f w1)
              ∙ held),
      )

  -- An output whose JSON has more than 1<<20 bytes and is read back by encoding/json as it was goes to
  -- the object store, whose bucket has no slash in its name: when CompleteState has stored it for a
  -- state that has a record, GetStateOutput returns it. The two stores do what their manuals say, BSON
  -- gives a reference back as it was, and neither store touches the other.
  pub complete_state-get_state_output :
      (r : StateRecord)
      → IsColonFree e
      → IsColonFree n
      → records e n ≡ some r
      → (w' : W) × (complete_state s e n output w ≡ (ok tt, w'))
        × (get_state_output s e n w' ≡ (ok output, w'))
  complete_state-get_state_output r p p' found =
      let (d, l, _) = subst (Follows (driver.docs w) e n) found (t.follows e n p p') in
      completes d l
