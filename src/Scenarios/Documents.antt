-- ===== src/Scenarios/Documents.antt =====
-- A collection that does what the driver's manual says: a list of documents, of which the first with
-- an id counts.
use state_graph.Prelude.{
  String, ◌≡◌, refl, sym, ◌∙◌, ap, subst, ◌⊎◌, inl, inr, Bool, true, false, not, ◌&&◌, ◌==◌, eq_iff,
  eq_refl, leb, Option, none, some, List, [], ◌∷◌, arith, Bool-cases, Option-cases, if◌then◌else◌,
}
use state_graph.Values.{duplicate_key, no_documents}
use state_graph.Exec.{Result, ok, err}
use state_graph.Store.Mongo.Tracks.{some-injective}
use state_graph.Store.Mongo.Driver.{
  Sort, unsorted, ascending, descending, Collection, Documented, Stored, IsFirst, write,
}

none_cases :
    {D : Type 0} (b : Bool) (d : D) (o : Option D)
    → (if b then some d else o) ≡ none
    → (b ≡ false) × (o ≡ none)
none_cases true d o h = absurd (ground (arith, h))
none_cases false d o h = (refl, h)

both_of : (a b : Bool) → (a && not b) ≡ true → (a ≡ true) × (b ≡ false)
both_of true true h = absurd (ground (arith, h))
both_of true false h = (refl, refl)
both_of false b h = absurd (ground (arith, h))

kept : (a b : Bool) → b ≡ false → (a && not b) ≡ false → a ≡ false
kept a b h h' = ground (arith, h, h')

abbrev pub first_reply : {D V : Type 0} → Option D → V → Result D × V
first_reply none w = (err no_documents, w)
first_reply (some d) w = (ok d, w)

module _ {D : Type 0} (id : D → String) where
  abbrev pub docs : List D → String → Option D
  docs [] key = none
  docs (d ∷ w) key = if id d == key then some d else docs w key

  abbrev pub wins : Sort D → D → D → Bool
  wins unsorted d other = true
  wins (ascending rank) d other = leb (rank d) (rank other)
  wins (descending rank) d other = leb (rank other) (rank d)

  abbrev pub better : Sort D → D → Option D → D
  better sort d none = d
  better sort d (some other) = if wins sort d other then d else other

  -- the first in the order, among the documents that count
  unfoldable pub first : Sort D → (D → Bool) → List D → Option D
  first sort p [] = none
  first sort p (d ∷ w) =
      let rest = first sort (λ x. p x && not (id d == id x)) w in
      if p d then some (better sort d rest) else rest

  unfoldable pub update_first : (D → Bool) → (D → D) → List D → List D
  update_first p f [] = []
  update_first p f (d ∷ w) = let rest = update_first p f w in if p d then f d ∷ w else d ∷ rest

  head_cases :
      (key : String) (x d : D) (w : List D)
      → docs (x ∷ w) key ≡ some d
      → (((id x == key) ≡ true) × (x ≡ d)) ⊎ (((id x == key) ≡ false) × (docs w key ≡ some d))
  head_cases key x d w h = elim (Bool-cases (id x == key)) [
    | inl q ↦ inl (q, some-injective (sym (rw (q) refl) ∙ h))
    | inr q ↦ inr (q, sym (rw (q) refl) ∙ h)
  ]

  pub keyed : (key : String) (d : D) (w : List D) → docs w key ≡ some d → id d ≡ key
  keyed key d [] h = absurd (ground (arith, h))
  keyed key d (x ∷ w) h = elim (head_cases key x d w h) [
    | inl (q, e) ↦ ap id (sym e) ∙ (eq_iff (id x) key).0 q
    | inr (_, h') ↦ keyed key d w h'
  ]

  pub docs-update :
      (key : String) (f : D → D) (d : D) (w : List D)
      → docs w key ≡ some d
      → id (f d) ≡ key
      → (asked : String)
      → docs (update_first (λ x. id x == key) f w) asked ≡ write (docs w) key (f d) asked
  unfolding update_first
  docs-update key f d [] h k asked = absurd (ground (arith, h))
  docs-update key f d (x ∷ w) h k asked = elim (head_cases key x d w h) [
    | inl (q, e) ↦
        (let same : id d ≡ key = ap id (sym e) ∙ (eq_iff (id x) key).0 q in
          elim (Bool-cases (key == asked)) [
            | inl a ↦ rw (q, e, k, a) refl
            | inr a ↦ rw (q, e, k, same, a) refl
          ])
    | inr (q, h') ↦ rw (q) (
        ground (
          arith,
          q,
          eq_iff (id x) key,
          eq_iff (id x) asked,
          eq_iff key asked,
          docs-update key f d w h' k asked,
        ))
  ]

  IsFirst-refl : (sort : Sort D) (d : D) → IsFirst sort d d
  IsFirst-refl unsorted d = tt
  IsFirst-refl (ascending rank) d = omega arith
  IsFirst-refl (descending rank) d = omega arith

  IsFirst-trans :
      (sort : Sort D) (a b c : D) → wins sort a b ≡ true → IsFirst sort b c → IsFirst sort a c
  IsFirst-trans unsorted a b c q h = tt
  IsFirst-trans (ascending rank) a b c q h = ground (arith, q, h)
  IsFirst-trans (descending rank) a b c q h = ground (arith, q, h)

  IsFirst-total : (sort : Sort D) (a b : D) → wins sort a b ≡ false → IsFirst sort b a
  IsFirst-total unsorted a b q = tt
  IsFirst-total (ascending rank) a b q = ground (arith, q)
  IsFirst-total (descending rank) a b q = ground (arith, q)

  module _ (sort : Sort D) where
    pub first-none :
        (p : D → Bool) (w : List D)
        → first sort p w ≡ none
        → (d : D) → Stored (docs w) id d
        → p d ≡ false
    unfolding first
    first-none p [] h d s = absurd (ground (arith, s))
    first-none p (x ∷ w) h d s =
        let (px, rest) = none_cases (p x) _ _ h in
        elim (head_cases (id d) x d w s) [
          | inl (_, e) ↦ ap p (sym e) ∙ px
          | inr (q, s') ↦ kept _ _ q (first-none (λ y. p y && not (id x == id y)) w rest d s')
        ]

    abbrev pub Best : (D → Bool) → List D → D → Type 0
    Best p w d =
        Stored (docs w) id d
        × (p d ≡ true)
        × ((other : D) → Stored (docs w) id other → p other ≡ true → IsFirst sort d other)

    -- a candidate against the first document and the others
    among :
        (p : D → Bool) (x c : D) (w : List D)
        → Stored (docs (x ∷ w)) id c
        → p c ≡ true
        → (p x ≡ true → IsFirst sort c x)
        → ((other : D)
            → Stored (docs w) id other
            → (p other && not (id x == id other)) ≡ true
            → IsFirst sort c other)
        → Best p (x ∷ w) c
    among p x c w s pc here rest = (
      s,
      pc,
      λ other s' po. elim (head_cases (id other) x other w s') [
        | inl (_, e) ↦ subst (IsFirst sort c) e (here (ap p e ∙ po))
        | inr (q, s'') ↦ rest other s'' (rw (po, q) refl)
      ],
    )

    -- a document that counts among the others, put behind the first
    behind :
        (p : D → Bool) (x c : D) (w : List D)
        → Best (λ y. p y && not (id x == id y)) w c
        → (p x ≡ true → IsFirst sort c x)
        → Best p (x ∷ w) c
    behind p x c w (s, pc, f) here =
        let (pc1, pc2) = both_of (p c) (id x == id c) pc in among p x c w (rw (pc2) s) pc1 here f

    chosen :
        (p : D → Bool) (x c : D) (w : List D)
        → p x ≡ true
        → Best (λ y. p y && not (id x == id y)) w c
        → Best p (x ∷ w) (if wins sort x c then x else c)
    chosen p x c w px b = elim (Bool-cases (wins sort x c)) [
      | inl q ↦ rw (q) (
          among p x x w (rw (eq_refl) refl) px (λ _. IsFirst-refl sort x)
            (λ other s po. IsFirst-trans sort x c other q (b.2 other s po)))
      | inr q ↦ rw (q) (behind p x c w b (λ _. IsFirst-total sort x c q))
    ]

    pub first-some : (p : D → Bool) (w : List D) (d : D) → first sort p w ≡ some d → Best p w d
    unfolding first
    first-some p [] d h = absurd (ground (arith, h))
    first-some p (x ∷ w) d h =
        let p' : D → Bool = λ y. p y && not (id x == id y) in
        elim (Bool-cases (p x)) [
          | inr q ↦
              behind p x d w (first-some p' w d (sym (rw (q) refl) ∙ h))
                (λ px. absurd (ground (arith, q, px)))
          | inl q ↦
              (let e : better sort x (first sort p' w) ≡ d =
                  some-injective (sym (rw (q) refl) ∙ h) in
                elim (Option-cases (first sort p' w)) [
                  | inl r ↦ subst (Best p (x ∷ w)) (sym (rw (r) refl) ∙ e) (
                      among p x x w (rw (eq_refl) refl) q (λ _. IsFirst-refl sort x)
                        (λ other s po. absurd (ground (arith, po, first-none p' w r other s))))
                  | inr (c, r) ↦
                      subst (Best p (x ∷ w)) (sym (rw (r) refl) ∙ e)
                        (chosen p x c w q (first-some p' w c r))
                ])
        ]

  module _ {O : Type 0} where
    abbrev pub insert_reply : D → Option D → List D × O → Result (Unit {0}) × (List D × O)
    insert_reply d none (w, o) = (ok tt, (d ∷ w, o))
    insert_reply d (some _) w = (err duplicate_key, w)

    -- the collection, in a world that has something else as well
    abbrev pub collection : Collection (List D × O) D
    collection = record {
      insert_one = λ d w. insert_reply d (docs w.0 (id d)) w;
      find_one = λ p sort w. first_reply (first sort p w.0) w;
      find = λ p options w. (ok w.0, w);
      update_one = λ p f w. (ok 1, (update_first p f w.0, w.1));
      delete_one = λ p w. (ok 0, w);
    }

    -- where each document survives
    abbrev pub collection_laws :
        (survives : D → Type 0) → ((d : D) → survives d) → Documented id survives collection
    collection_laws survives each = record {
      docs = λ w. docs w.0;
      keyed = λ key d w. keyed key d w.0;
      stable = λ key d w h. each d;
      inserted = λ d w _ h. ((d ∷ w.0, w.1), rw (h) refl, λ key. refl);
      refused = λ d stored w h. rw (h) refl;
      found = λ p sort w. elim (Option-cases (first sort p w.0)) [
        | inl h ↦ inr (rw (h) refl, first-none sort p w.0 h)
        | inr (d, h) ↦
            (let (s, pd, f) = first-some sort p w.0 d h in inl (d, rw (h) refl, s, pd, f))
      ];
      updated = λ key f d w h k _.
          ((update_first (λ x. id x == key) f w.0, w.1), refl, docs-update key f d w.0 h k);
    }
