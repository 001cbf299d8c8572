-- ===== src/Store/Mongo/Writes.antt =====
-- How one write to the state documents of internal/store/mongo_store.go changes what they stand for.
use state_graph.Prelude.{
  String, ℕ, ◌≡◌, refl, sym, ◌∙◌, subst, ◌⊎◌, inl, inr, true, false, ◌==◌, eq_iff, eq_refl, ◌≤◌,
  Option, none, some, arith, Bool-cases,
}
use state_graph.Store.{StateRecord}
use state_graph.Store.Memory.{is_completed}
use state_graph.Store.Memory.Keys.{IsColonFree}
use state_graph.Store.Memory.Records.{Records, put}
use state_graph.Store.Mongo.Driver.{write}
use state_graph.Store.Mongo.{StateDoc, of_state}
use state_graph.Store.Mongo.Tracks.{
  Docs, IsStored, Shows, IsLatest, Follows, IsNamed, Tracks, place, same_place, some-injective,
}

-- every other document of the state is older, and not completed
abbrev pub Replaces : Docs → StateDoc → Type 0
Replaces docs d =
    (other : StateDoc)
    → IsStored docs other
    → of_state d.execution_id d.state_name other ≡ true
    → (d.id == other.id) ≡ false
    → (other.attempt ≤ d.attempt) × (is_completed other.status ≡ false)

abbrev Written : Docs → Docs → StateDoc → Type 0
Written docs docs' d = (key : String) → docs' key ≡ write docs d.id d key

module _ (decimal : ℕ → String) (decimal-injective : (a b : ℕ) → decimal a ≡ decimal b → a ≡ b)
    (docs docs' : Docs) (new : StateDoc) (written : Written docs docs' new) where
  stored_cases :
      (d : StateDoc) → IsStored docs' d → (new ≡ d) ⊎ (((new.id == d.id) ≡ false) × IsStored docs d)
  stored_cases d s = elim (Bool-cases (new.id == d.id)) [
    | inl q ↦ inl (some-injective (sym (rw (q) refl) ∙ sym (written d.id) ∙ s))
    | inr q ↦ inr (q, sym (rw (q) refl) ∙ sym (written d.id) ∙ s)
  ]

  stays : (d : StateDoc) → IsStored docs d → (new.id == d.id) ≡ false → IsStored docs' d
  stays d s q = written d.id ∙ rw (q) s

  is_stored : IsStored docs' new
  is_stored = written new.id ∙ rw (eq_refl) refl

  module _ (records : Records) (named : IsNamed decimal new) (h : Tracks decimal docs records) where
    pub written-IsNamed : (d : StateDoc) → IsStored docs' d → IsNamed decimal d
    written-IsNamed d s = elim (stored_cases d s) [
      | inl q ↦ subst (IsNamed decimal) q named
      | inr (_, s') ↦ h.named d s'
    ]

    apart :
        (e n : String) (d : StateDoc)
        → of_state e n new ≡ false
        → IsStored docs d
        → of_state e n d ≡ true
        → (new.id == d.id) ≡ false
    apart e n d q s m = elim (Bool-cases (new.id == d.id)) [
      | inr p ↦ p
      | inl p ↦
          (let (e1, n1, _) =
              same_place decimal decimal-injective new d named (h.named d s)
                ((eq_iff new.id d.id).0 p) in
            let (e2, n2) = place e n d m in
            ground (arith, eq_iff new.execution_id e, eq_iff new.state_name n, e1 ∙ e2, n1 ∙ n2, q))
    ]

    module _ (e n : String) (q : of_state e n new ≡ false) where
      -- a document of another state was there before
      before : (d : StateDoc) → IsStored docs' d → of_state e n d ≡ true → IsStored docs d
      before d s m = elim (stored_cases d s) [
        | inl p ↦ absurd (ground (arith, subst (λ x. of_state e n x ≡ false) p q, m))
        | inr (_, s') ↦ s'
      ]

      elsewhere : (o : Option StateRecord) → Follows docs e n o → Follows docs' e n o
      elsewhere none f = λ d s. elim (stored_cases d s) [
        | inl p ↦ subst (λ x. of_state e n x ≡ false) p q
        | inr (_, s') ↦ f d s'
      ]
      elsewhere (some r) (d, l, shown) = (
        d,
        record {
          stored = stays d l.stored (apart e n d q l.stored l.here);
          here = l.here;
          highest = λ other s m. l.highest other (before other s m) m;
          last_completed = λ other s m c. l.last_completed other (before other s m) m c;
        },
        shown,
      )

    module _ (replaces : Replaces docs new) where
      -- the new document is the latest of its state
      newest : IsLatest docs' new.execution_id new.state_name new
      newest = record {
        stored = is_stored;
        here = rw (eq_refl, eq_refl) refl;
        highest = λ other s m. elim (stored_cases other s) [
          | inl p ↦ subst (λ x. x.attempt ≤ new.attempt) p (omega arith)
          | inr (p, s') ↦ (replaces other s' m p).0
        ];
        last_completed = λ other s m c. elim (stored_cases other s) [
          | inl p ↦ sym p
          | inr (p, s') ↦ absurd (ground (arith, c, (replaces other s' m p).1))
        ];
      }

      pub newest_at :
          (e n : String) → (new.execution_id ≡ e) × (new.state_name ≡ n) → IsLatest docs' e n new
      newest_at e n (p, p') =
          subst (λ x. IsLatest docs' x n new) p
            (subst (λ y. IsLatest docs' new.execution_id y new) p' newest)

      module _ (r : StateRecord) (shown : Shows new r) where
        follows_after :
            (e n : String)
            → IsColonFree e
            → IsColonFree n
            → Follows docs' e n (put new.execution_id new.state_name r records e n)
        follows_after e n f g = elim (Bool-cases (of_state e n new)) [
          | inl q ↦ rw (q) (new, newest_at e n (place e n new q), shown)
          | inr q ↦ rw (q) (elsewhere e n q (records e n) (h.follows e n f g))
        ]

        -- The records follow a write of the latest document.
        pub write-Tracks : Tracks decimal docs' (put new.execution_id new.state_name r records)
        write-Tracks = record { named = written-IsNamed; follows = follows_after }
