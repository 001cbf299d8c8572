-- ===== src/Api/Outcomes.antt =====
-- What handlers of internal/api answer on the memory store.
use state_graph.Prelude.{
  ◌≤◌, ℕ, String, ℤ, pos, ◌≡◌, refl, false, not, ◌==◌, Bool-cases, inl, inr, Option, some,
}
use state_graph.Dict.{lookup}
use state_graph.Exec.{ok, err, branch}
use state_graph.Values.{duplicate_service_name}
use state_graph.Store.{Time, ServiceRecord}
use state_graph.Store.Memory as Memory
use state_graph.Store.Memory.{MemoryStore}
use state_graph.Store.Memory.Services as Services
use state_graph.Store.Memory.Services.{World, memory_store}
use state_graph.Gateway.Outcomes.{service-got}
use state_graph.Api.Services.{is_stopped, collision, handle_create_service}

service-refused :
    (now : Time) (r existing : ServiceRecord) (m : MemoryStore)
    → lookup r.name m.services ≡ some existing
    → Services.create_service now r m ≡ (err duplicate_service_name, m)
unfolding Services.create_service
service-refused now r existing m h = rw (h, Services.create_service) refl

-- a bound on the numbers of a query under which no sum of two is above the largest int
abbrev pub half_int : ℕ
half_int = 4611686018427387903  -- 1<<62 - 1

abbrev pub IsModest : (String → Option ℤ) → String → Type 0
IsModest atoi s = (k : ℕ) → atoi s ≡ some (pos k) → k ≤ half_int

module _ {U : Type 0} where
  -- A service with a name that is in use, whatever its status, is answered with a collision, and the
  -- store stays as it was: a stopped service is not replaced.
  handle_create_service-collides :
      (r existing : ServiceRecord) (w : World U)
      → (r.name == "") ≡ false
      → lookup r.name w.memory.services ≡ some existing
      → handle_create_service memory_store (some r) w ≡ (ok collision, w)
  unfolding handle_create_service branch
  handle_create_service-collides r existing w named h =
      elim (Bool-cases (not (is_stopped existing.status))) [
        | inl q ↦ rw (named, service-got r.name existing w.memory h, q) refl
        | inr q ↦
            rw
              (
                named,
                service-got r.name existing w.memory h,
                q,
                service-refused w.clock r existing w.memory h,
              )
              refl
      ]
