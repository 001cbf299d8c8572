-- ===== src/Store/Memory/Listing.antt =====
-- The page that a listing returns.
use Prim.Native.Nat.{◌%◌}
use state_graph.Prelude.{
  ◌⊎◌, ◌↔◌, eq_iff, leb, pos_part, ℕ, zero, suc, ℤ, pos, negsuc, ◌+◌, ◌-◌, ◌≤◌, ◌<◌, ◌≡◌, refl, sym,
  ap, ◌∙◌, inl, inr, Bool, true, false, List, [], ◌∷◌, arith, ltb, length, take, drop, length-drop,
  Bool-cases, if◌then◌else◌,
}
use state_graph.Exec.{Result, ok, panics}
use state_graph.Store.Filters.{Filters, Filters-select}
use state_graph.Store.{ExecutionRecord, ExecutionFilter}
use state_graph.Store.Memory.{
  MemoryStore, add_int, int_size, max_int, status_text, page, limit_of, matches_filter, select,
  values, list_executions,
}

-- the tests of the loop, as properties
abbrev pub Matches : ExecutionFilter → ExecutionRecord → Type 0
Matches f r =
    ((f.workflow ≡ "") ⊎ (r.workflow ≡ f.workflow))
    × ((f.status ≡ "") ⊎ (status_text r.status ≡ f.status))

-- the limit that is asked for, or 50 where none is
abbrev pub IsLimit : ℤ → ℕ → Type 0
IsLimit (pos (suc n)) limit = limit ≡ suc n
IsLimit _ limit = limit ≡ 50

-- The records from the offset on, at most `limit` of them, and none for an offset behind the last. No
-- slice starts below 0, or ends at a sum that no int holds.
abbrev pub window {ℓ} : {A : Type ℓ} → ℤ → ℕ → List A → Result (List A)
window (negsuc _) limit xs = panics
window (pos start) limit xs =
    if ltb (length xs) start
    then ok []
    else if leb (start + limit) max_int
    then ok (take limit (drop start xs))
    else panics

-- the sum of two ints that are not negative
module _ (a b : ℕ) where
  add_int-fits : a + b ≤ max_int → add_int a b ≡ pos (a + b)
  unfolding add_int
  add_int-fits h =
      let same : ((a + b) % int_size) ≡ a + b = omega (arith, h) in
      let small : leb (a + b) max_int ≡ true = ground (arith, h) in rw (same, small) refl

  add_int-overflows :
      a ≤ max_int → b ≤ max_int → max_int < a + b → (k : ℕ) × (add_int a b ≡ negsuc k)
  unfolding add_int
  add_int-overflows p q h =
      let same : ((a + b) % int_size) ≡ a + b = omega (arith, p, q) in
      let big : leb (a + b) max_int ≡ false = ground (arith, h) in
      ((int_size - (a + b)) - 1, rw (same, big) refl)

module _ {ℓ} {A : Type ℓ} where
  drop-beyond : (n : ℕ) (xs : List A) → length xs < n → drop n xs ≡ []
  drop-beyond zero xs h = absurd (omega (arith, h))
  drop-beyond (suc n) [] h = refl
  drop-beyond (suc n) (x ∷ xs) h = drop-beyond n xs (omega (arith, h))

  take-beyond : (n : ℕ) (xs : List A) → length xs ≤ n → take n xs ≡ xs
  take-beyond zero [] h = refl
  take-beyond zero (x ∷ xs) h = absurd (omega (arith, h))
  take-beyond (suc n) [] h = refl
  take-beyond (suc n) (x ∷ xs) h = ap (◌∷◌ x) (take-beyond n xs (omega (arith, h)))

  take-empty : (n : ℕ) → take {A = A} n [] ≡ []
  take-empty zero = refl
  take-empty (suc n) = refl

  -- a slice that ends with the list, and one that ends before
  slice-window :
      (start limit : ℕ) (xs : List A) (b : Bool)
      → ltb (length xs) (start + limit) ≡ b
      → take ((if b then length xs else start + limit) - start) (drop start xs)
        ≡ take limit (drop start xs)
  slice-window start limit xs true h =
      take-beyond _ (drop start xs) (omega (arith, length-drop start xs))
      ∙ sym (take-beyond limit (drop start xs) (ground (arith, length-drop start xs, h)))
  slice-window start limit xs false h = ap (λ n. take n (drop start xs)) (omega arith)

pub page-window :
    (offset : ℤ) (limit : ℕ) (xs : List ExecutionRecord)
    → pos_part offset ≤ max_int
    → limit ≤ max_int
    → page offset limit xs ≡ window offset limit xs
unfolding page
page-window (negsuc n) limit xs p q = refl
page-window (pos start) limit xs p q = elim (Bool-cases (ltb (length xs) start)) [
  | inl e ↦ rw e refl
  | inr e ↦ elim (Bool-cases (leb (start + limit) max_int)) [
    | inl fits ↦
        rw (e, fits, add_int-fits start limit (ground (arith, fits)))
          (ap ok (slice-window start limit xs _ refl))
    | inr over ↦
        let (k, sum) = add_int-overflows start limit p q (ground (arith, over)) in
        rw (e, over, sum) refl
  ]
]

matches_filter_iff :
    (f : ExecutionFilter) (r : ExecutionRecord) → (matches_filter f r ≡ true) ↔ Matches f r
matches_filter_iff f r = (
  λ h. (
    ground (arith, h, eq_iff f.workflow "", eq_iff r.workflow f.workflow),
    ground (arith, h, eq_iff f.status "", eq_iff (status_text r.status) f.status),
  ),
  λ h. ground (
    arith,
    h,
    eq_iff f.workflow "",
    eq_iff r.workflow f.workflow,
    eq_iff f.status "",
    eq_iff (status_text r.status) f.status,
  ),
)

limit_of-IsLimit : (l : ℤ) → IsLimit l (limit_of l)
limit_of-IsLimit (pos zero) = refl
limit_of-IsLimit (pos (suc n)) = let asked : ltb 0 (suc n) ≡ true = ground arith in rw asked refl
limit_of-IsLimit (negsuc n) = refl

limit_of-int : (l : ℤ) → pos_part l ≤ max_int → limit_of l ≤ max_int
limit_of-int l h = ground (arith, h)

-- Listing returns, for an offset of 0 or more, the records that match the filter from the offset on, in
-- their order, at most as many as the limit (50 if the limit is not positive), and none for an offset
-- behind the last; it panics for a negative offset, and where offset and limit, which are ints, have
-- a sum above the largest int and the offset is not behind the last record. The store stays as it
-- was.
pub list_executions-window :
    (f : ExecutionFilter) (m : MemoryStore)
    → pos_part f.offset ≤ max_int
    → pos_part f.limit ≤ max_int
    → (found : List ExecutionRecord) × (limit : ℕ) × Filters (Matches f) (values m.executions) found
      × IsLimit f.limit limit
      × (list_executions f m ≡ (window f.offset limit found, m))
unfolding list_executions
list_executions-window f m p q = (
  select (matches_filter f) (values m.executions),
  limit_of f.limit,
  Filters-select (matches_filter f) (matches_filter_iff f) (values m.executions),
  limit_of-IsLimit f.limit,
  ap (λ r. (r, m)) (page-window f.offset (limit_of f.limit) _ p (limit_of-int f.limit q)),
)
