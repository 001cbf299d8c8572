-- ===== src/Store/Mongo/Driver.antt =====
-- What internal/store/mongo_store.go uses of the MongoDB driver: the calls on one collection, with a
-- filter as the test that it describes and `$set` as the change that it makes.
use state_graph.Prelude.{
  String, ℕ, ℤ, Bool, ◌≡◌, ◌⊎◌, true, false, ◌==◌, ◌≤◌, Option, none, some, List, if◌then◌else◌,
}
use state_graph.Values.{duplicate_key, no_documents}
use state_graph.Exec.{ok, err, Exec}

-- `SetSort`, by the field that the code sorts on
pub data Sort (D : Type 0) : Type 0 where
  unsorted : Sort D
  ascending descending : (D → ℕ) → Sort D

pub record FindOptions (D : Type 0) : Type 0 where
  pub sort : Sort D
  pub limit : Option ℕ
  pub skip : ℤ

pub record Collection (W D : Type 0) : Type 0 where
  pub insert_one : D → Exec W (Unit {0})
  pub find_one : (D → Bool) → Sort D → Exec W D
  pub find : (D → Bool) → FindOptions D → Exec W (List D)
  -- the number of documents that matched
  pub update_one : (D → Bool) → (D → D) → Exec W ℕ
  pub delete_one : (D → Bool) → Exec W ℕ

-- The documents of a collection, by `_id`, which is unique.
abbrev pub Stored : {D : Type 0} → (String → Option D) → (D → String) → D → Type 0
Stored docs id d = docs (id d) ≡ some d

-- the contents after a document is written
abbrev pub write : {D : Type 0} → (String → Option D) → String → D → String → Option D
write docs key d asked = if key == asked then some d else docs asked

abbrev pub IsFirst : {D : Type 0} → Sort D → D → D → Type 0
IsFirst unsorted d other = Unit
IsFirst (ascending rank) d other = rank d ≤ rank other
IsFirst (descending rank) d other = rank other ≤ rank d

-- What the driver's manual says of a collection that can be reached, `docs` being its contents as they
-- are read. A document that survives the encoding is read as it was written, and one that was read
-- survives; times are whole milliseconds, which the encoding keeps.
pub record Documented {W D : Type 0} (id : D → String) (survives : D → Type 0) (c : Collection W D)
    : Type 0 where
  pub docs : W → String → Option D
  pub keyed : (key : String) (d : D) (w : W) → docs w key ≡ some d → id d ≡ key
  pub stable : (key : String) (d : D) (w : W) → docs w key ≡ some d → survives d
  pub inserted :
      (d : D) (w : W)
      → survives d
      → docs w (id d) ≡ none
      → (w' : W) × (c.insert_one d w ≡ (ok tt, w'))
        × ((key : String) → docs w' key ≡ write (docs w) (id d) d key)
  pub refused :
      (d stored : D) (w : W)
      → docs w (id d) ≡ some stored
      → c.insert_one d w ≡ (err duplicate_key, w)
  pub found :
      (p : D → Bool) (sort : Sort D) (w : W)
      → ((d : D) × (c.find_one p sort w ≡ (ok d, w))
          × Stored (docs w) id d
          × (p d ≡ true)
          × ((other : D) → Stored (docs w) id other → p other ≡ true → IsFirst sort d other))
        ⊎ ((c.find_one p sort w ≡ (err no_documents, w))
            × ((d : D) → Stored (docs w) id d → p d ≡ false))
  pub updated :
      (key : String) (f : D → D) (d : D) (w : W)
      → docs w key ≡ some d
      → id (f d) ≡ key
      → survives (f d)
      → (w' : W) × (c.update_one (λ d. id d == key) f w ≡ (ok 1, w'))
        × ((asked : String) → docs w' asked ≡ write (docs w) key (f d) asked)
