-- ===== src/Dict.antt =====
-- Go maps with string keys: an association list, in which the first entry of a key counts. The order
-- of the list stands for the order of iteration, which Go leaves open.
use state_graph.Prelude.{
  String, ◌≡◌, refl, ◌≢◌, ◌⊎◌, Option, none, some, List, [], ◌∷◌, arith, ◌==◌, eq_iff, eq_refl,
  eq-false_of_ne, if◌then◌else◌,
}

abbrev pub Dict {ℓ} : Type ℓ → Type ℓ
Dict V = List (String × V)

module _ {ℓ} {V : Type ℓ} where
  -- m[key] with its `ok` result
  unfoldable pub lookup : String → Dict V → Option V
  lookup key [] = none
  lookup key ((name, value) ∷ rest) = if name == key then some value else lookup key rest

  -- delete(m, key)
  unfoldable pub erase : String → Dict V → Dict V
  erase key [] = []
  erase key ((name, value) ∷ rest) =
      let erased = erase key rest in if name == key then erased else (name, value) ∷ erased

  -- m[key] = new: the entry is replaced where it stands, or added at the end
  unfoldable pub insert : String → V → Dict V → Dict V
  insert key new [] = (key, new) ∷ []
  insert key new ((name, value) ∷ rest) =
      if name == key then (key, new) ∷ rest else (name, value) ∷ insert key new rest

  pub lookup-insert :
      (key asked : String) (new : V) (m : Dict V)
      → lookup asked (insert key new m) ≡ (if key == asked then some new else lookup asked m)
  unfolding lookup insert
  lookup-insert key asked new [] = refl
  lookup-insert key asked new ((name, value) ∷ rest) = ground (
    arith,
    eq_iff name asked,
    eq_iff name key,
    eq_iff key asked,
    lookup-insert key asked new rest,
  )

  pub lookup-insert_self :
      (key : String) (new : V) (m : Dict V) → lookup key (insert key new m) ≡ some new
  lookup-insert_self key new m = rw (lookup-insert, eq_refl) refl

  pub lookup-insert_ne :
      (k j : String) (v : V) (m : Dict V) → k ≢ j → lookup j (insert k v m) ≡ lookup j m
  lookup-insert_ne k j v m h = rw (lookup-insert, eq-false_of_ne k j h)

  -- what is found after a write is what was written, or was there before
  pub lookup-insert_cases :
      (k j : String) (v : V) (m : Dict V) {x : V}
      → lookup j (insert k v m) ≡ some x
      → ((k ≡ j) × (x ≡ v)) ⊎ (lookup j m ≡ some x)
  lookup-insert_cases k j v m h = ground (arith, eq_iff k j, lookup-insert k j v m)
