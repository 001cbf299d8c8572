-- ===== src/Store/Mongo/Tracks.antt =====
-- The state documents of internal/store/mongo_store.go, and what they say of a state: the document
-- with the highest attempt stands for its record.
use state_graph.Prelude.{
  String, ℕ, ◌≡◌, refl, sym, ◌∙◌, ap, true, false, eq_iff, ◌≤◌, Option, none, some, arith,
}
use state_graph.Store.{StateRecord}
use state_graph.Store.Memory.{is_completed, state_key}
use state_graph.Store.Memory.Keys.{IsColonFree, state_key-injective}
use state_graph.Store.Memory.Records.{Records}
use state_graph.Store.Mongo.Driver.{Stored}
use state_graph.Store.Mongo.{StateDoc, m_to_input, state_doc_id, of_state}
use state_graph.Store.Mongo.States.{ref_of}

abbrev pub Docs : Type 0
Docs = String → Option StateDoc

abbrev pub IsStored : Docs → StateDoc → Type 0
IsStored docs d = Stored docs (λ x. x.id) d

-- the document holds what can be asked of the record
pub record Shows (d : StateDoc) (r : StateRecord) : Type 0 where
  pub attempt : d.attempt ≡ r.attempt
  pub status : d.status ≡ r.status
  pub output :
      is_completed r.status ≡ true → (m_to_input d.output ≡ r.output) × (ref_of r.output ≡ none)

pub record IsLatest (docs : Docs) (e n : String) (d : StateDoc) : Type 0 where
  pub stored : IsStored docs d
  pub here : of_state e n d ≡ true
  pub highest :
      (other : StateDoc)
      → IsStored docs other
      → of_state e n other ≡ true
      → other.attempt ≤ d.attempt
  pub last_completed :
      (other : StateDoc)
      → IsStored docs other
      → of_state e n other ≡ true
      → is_completed other.status ≡ true
      → other ≡ d

abbrev pub Follows : Docs → String → String → Option StateRecord → Type 0
Follows docs e n none = (d : StateDoc) → IsStored docs d → of_state e n d ≡ false
Follows docs e n (some r) = (d : StateDoc) × IsLatest docs e n d × Shows d r

pub some-injective : {A : Type 0} {a b : A} → some a ≡ some b → a ≡ b
some-injective h = cc

pub place :
    (e n : String) (d : StateDoc)
    → of_state e n d ≡ true
    → (d.execution_id ≡ e) × (d.state_name ≡ n)
place e n d m = ground (arith, eq_iff d.execution_id e, eq_iff d.state_name n)

module _ (decimal : ℕ → String) where
  pub record IsNamed (d : StateDoc) : Type 0 where
    pub id : d.id ≡ state_doc_id decimal d.execution_id d.state_name d.attempt
    pub execution : IsColonFree d.execution_id
    pub state : IsColonFree d.state_name

  pub record Tracks (docs : Docs) (records : Records) : Type 0 where
    pub named : (d : StateDoc) → IsStored docs d → IsNamed d
    pub follows : (e n : String) → IsColonFree e → IsColonFree n → Follows docs e n (records e n)

  pub same_id :
      (e n : String) (d d' : StateDoc)
      → of_state e n d ≡ true
      → of_state e n d' ≡ true
      → d.attempt ≡ d'.attempt
      → state_doc_id decimal d'.execution_id d'.state_name d'.attempt
        ≡ state_doc_id decimal d.execution_id d.state_name d.attempt
  same_id e n d d' m m' a =
      let p = place e n d m in let p' = place e n d' m' in rw (p.0, p.1, p'.0, p'.1, a) refl

  module _ (decimal-injective : (a b : ℕ) → decimal a ≡ decimal b → a ≡ b) where
    pub same_place :
        (d d' : StateDoc)
        → IsNamed d
        → IsNamed d'
        → d.id ≡ d'.id
        → (d.execution_id ≡ d'.execution_id)
          × (d.state_name ≡ d'.state_name)
          × (d.attempt ≡ d'.attempt)
    unfolding state_key
    same_place d d' p p' h =
        let e = sym p.id ∙ h ∙ p'.id in
        let (e1, e2) =
          state_key-injective d.execution_id d'.execution_id _ _ p.execution p'.execution e in
        let (e3, e4) = state_key-injective d.state_name d'.state_name _ _ p.state p'.state e2 in
        (e1, e3, decimal-injective _ _ e4)

    module _ (docs : Docs) (named : (d : StateDoc) → IsStored docs d → IsNamed d) where
      -- the document of a state with the highest attempt is the only one with that attempt
      pub unique :
          (e n : String) (d d' : StateDoc)
          → IsLatest docs e n d
          → IsStored docs d'
          → of_state e n d' ≡ true
          → d.attempt ≤ d'.attempt
          → d' ≡ d
      unique e n d d' l s' m' a = some-injective (
          sym s'
          ∙ ap docs (
              (named d' s').id
              ∙ same_id e n d d' l.here m' (omega (arith, a, l.highest d' s' m'))
              ∙ sym (named d l.stored).id)
          ∙ l.stored)
