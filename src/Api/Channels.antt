-- ===== src/Api/Channels.antt =====
-- The runs of a LogHub (internal/api/logs_ws_handler.go): what its channels hold.
use state_graph.Prelude.{
  ℕ, ◌+◌, ◌≡◌, refl, ◌≤◌, Bool, true, inl, inr, arith, ltb, Bool-cases, All, List, [], ◌∷◌, ◌++◌,
  map, length,
}
use state_graph.Store.Memory.{select}
use state_graph.Telemetry.{LogRow, LogFilter}
use state_graph.Telemetry.Filter.{matches_log_filter}
use state_graph.Api.Hubs.{
  offer, deliver, take_first, take_from, LogSubscriber, LogHub, new_log_hub, subscribe, unsubscribe,
  publish, receive, same,
}

-- One method of the hub, or one receive of a connection.
pub data Step : LogHub → LogHub → Type 0 where
  subscribes : (f : LogFilter) {h : LogHub} → Step h (subscribe f h)
  unsubscribes : (id : ℕ) {h : LogHub} → Step h (unsubscribe id h)
  publishes : (row : LogRow) {h : LogHub} → Step h (publish row h)
  receives : (id : ℕ) {h : LogHub} → Step h (receive id h)

pub data Reachable : LogHub → Type 0 where
  start : Reachable new_log_hub
  then_step : {h h' : LogHub} → Reachable h → Step h h' → Reachable h'

-- the channel is not overfull, and holds rows that its filter lets through
abbrev pub IsServed : LogSubscriber → Type 0
IsServed sub = (length sub.ch ≤ 64) × All (λ row. matches_log_filter row sub.filter ≡ true) sub.ch

length-append_one : {A : Type 0} (a : A) (xs : List A) → length (xs ++ (a ∷ [])) ≡ length xs + 1
length-append_one a [] = refl
length-append_one a (x ∷ xs) = omega (arith, length-append_one a xs)

All-append_one :
    {A : Type 0} (P : A → Type 0) (a : A) (xs : List A) → All P xs → P a → All P (xs ++ (a ∷ []))
All-append_one P a [] ps p = (p, tt)
All-append_one P a (x ∷ xs) ps p = (ps.0, All-append_one P a xs ps.1 p)

deliver-IsServed : (row : LogRow) (sub : LogSubscriber) → IsServed sub → IsServed (deliver row sub)
unfolding offer
deliver-IsServed row sub (few, match) = elim (Bool-cases (matches_log_filter row sub.filter)) [
  | inr q ↦ rw (q) (few, match)
  | inl q ↦ elim (Bool-cases (ltb (length sub.ch) 64)) [
    | inr r ↦ rw (q, r) (few, match)
    | inl r ↦
        rw (q, r)
          (
            ground (arith, r, length-append_one row sub.ch),
            All-append_one (λ x. matches_log_filter x sub.filter ≡ true) row sub.ch match q,
          )
  ]
]

take_first-few : (xs : List LogRow) → length xs ≤ 64 → length (take_first xs) ≤ 64
take_first-few [] h = h
take_first-few (x ∷ xs) h = omega (arith, h)

take_first-All : (P : LogRow → Type 0) (xs : List LogRow) → All P xs → All P (take_first xs)
take_first-All P [] ps = ps
take_first-All P (x ∷ xs) ps = ps.1

take_from-IsServed : (id : ℕ) (sub : LogSubscriber) → IsServed sub → IsServed (take_from id sub)
take_from-IsServed id sub (few, match) = elim (Bool-cases (same sub.id id)) [
  | inr q ↦ rw (q) (few, match)
  | inl q ↦ rw (q) (take_first-few sub.ch few, take_first-All _ sub.ch match)
]

map-All :
    {A : Type 0} (P : A → Type 0) (f : A → A)
    → ((a : A) → P a → P (f a))
    → (xs : List A) → All P xs
    → All P (map f xs)
map-All P f h [] ps = tt
map-All P f h (x ∷ xs) ps = (h x ps.0, map-All P f h xs ps.1)

select-All :
    {A : Type 0} (P : A → Type 0) (p : A → Bool) (xs : List A) → All P xs → All P (select p xs)
select-All P p [] ps = tt
select-All P p (x ∷ xs) ps = elim (Bool-cases (p x)) [
  | inl q ↦ rw (q) (ps.0, select-All P p xs ps.1)
  | inr q ↦ rw (q) (select-All P p xs ps.1)
]

-- In every hub that its methods and its connections can reach, each channel holds at most 64 rows,
-- all of which match the filter of its subscriber.
pub Reachable-IsServed : {h : LogHub} → Reachable h → All IsServed h.subscribers
unfolding subscribe unsubscribe publish receive
Reachable-IsServed start = tt
Reachable-IsServed (then_step r (subscribes f)) = ((omega arith, tt), Reachable-IsServed r)
Reachable-IsServed (then_step r (unsubscribes id)) = select-All _ _ _ (Reachable-IsServed r)
Reachable-IsServed (then_step r (publishes row)) =
    map-All _ _ (deliver-IsServed row) _ (Reachable-IsServed r)
Reachable-IsServed (then_step r (receives id)) =
    map-All _ _ (take_from-IsServed id) _ (Reachable-IsServed r)
