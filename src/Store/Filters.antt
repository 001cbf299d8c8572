-- ===== src/Store/Filters.antt =====
-- What a list keeps of another, said without a test.
use state_graph.Prelude.{
  ◌≡◌, refl, Bool, true, false, ◌⊎◌, inl, inr, List, [], ◌∷◌, Bool-cases, ◌↔◌, arith,
}
use state_graph.Store.Memory.{select}

-- `kept` has, in their order, the elements with a property, and no others
abbrev pub Filters : {A : Type 0} → (A → Type 0) → List A → List A → Type 0
Filters P [] kept = kept ≡ []
Filters {A} P (x ∷ xs) kept =
    (P x × ((rest : List A) × (kept ≡ x ∷ rest) × Filters P xs rest))
    ⊎ ((P x → ⊥) × Filters P xs kept)

pub Filters-select :
    {A : Type 0} {P : A → Type 0} (p : A → Bool)
    → ((x : A) → (p x ≡ true) ↔ P x)
    → (xs : List A) → Filters P xs (select p xs)
Filters-select p h [] = refl
Filters-select {A} {P} p h (x ∷ xs) = elim (Bool-cases (p x)) [
  | inl q ↦ rw q (inl ((h x).0 q, (select p xs, refl, Filters-select p h xs)))
  | inr q ↦ rw q (inr (refuted q, Filters-select p h xs))
]
  where
    refuted : p x ≡ false → P x → ⊥
    refuted q holds = let yes_it : p x ≡ true = (h x).1 holds in ground (arith, q, yes_it)
