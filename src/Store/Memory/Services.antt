-- ===== src/Store/Memory/Services.antt =====
-- internal/store/memory_store.go, the services, and the store as an implementation of the interface.
use state_graph.Prelude.{String, ◌==◌, none, some, List, if◌then◌else◌}
use state_graph.Dict.{lookup, insert, erase}
use state_graph.Values.{service_not_found, duplicate_service_name}
use state_graph.Exec.{ok, err, Exec}
use state_graph.Store.{Time, ServiceRecord, ServiceStatus, Store}
use state_graph.Store.Memory.{
  MemoryStore, create_execution, get_execution, update_execution, list_executions,
  write_ahead_state, mark_running, complete_state, fail_state, get_state_output, list_states,
  values,
}

unfoldable pub create_service : Time → ServiceRecord → Exec MemoryStore (Unit {0})
create_service now r m = elim (lookup r.name m.services) [
  | some _ ↦ (err duplicate_service_name, m)
  | none ↦ (
    ok tt,
    record m {
      services =
          insert r.name
            (record r { status = ServiceStatus.pending; created_at = now; updated_at = now })
            m.services;
    },
  )
]

unfoldable pub get_service : String → Exec MemoryStore ServiceRecord
get_service name m = elim (lookup name m.services) [
  | none ↦ (err service_not_found, m)
  | some r ↦ (ok r, m)
]

unfoldable pub list_services : Exec MemoryStore (List ServiceRecord)
list_services m = (ok (values m.services), m)

-- an empty `clusterIP` leaves the stored one
unfoldable pub update_service_status :
    Time → String → ServiceStatus → String → Exec MemoryStore (Unit {0})
update_service_status now name status cluster_ip m = elim (lookup name m.services) [
  | none ↦ (err service_not_found, m)
  | some r ↦ (
    ok tt,
    record m {
      services =
          insert name
            (record r {
              status = status;
              cluster_ip = if cluster_ip == "" then r.cluster_ip else cluster_ip;
              updated_at = now;
            })
            m.services;
    },
  )
]

unfoldable pub delete_service : String → Exec MemoryStore (Unit {0})
delete_service name m = elim (lookup name m.services) [
  | none ↦ (err service_not_found, m)
  | some _ ↦ (ok tt, record m { services = erase name m.services })
]

-- A world with a memory store, a clock, and what the user's handlers keep.
pub record World (U : Type 0) : Type 0 where
  pub memory : MemoryStore
  pub clock : Time
  pub user : U

module _ {U : Type 0} where
  abbrev pub on_memory : {A : Type 0} → (Time → Exec MemoryStore A) → Exec (World U) A
  on_memory f w = let (r, m) = f w.clock w.memory in (r, record w { memory = m })

  abbrev pub memory_store : Store (World U)
  memory_store = record {
    create_execution = λ r. on_memory (λ now. create_execution now r);
    get_execution = λ id. on_memory (λ _. get_execution id);
    update_execution = λ id status. on_memory (λ now. update_execution now id status);
    list_executions = λ f. on_memory (λ _. list_executions f);
    write_ahead_state = λ r. on_memory (λ now. write_ahead_state now r);
    mark_running = λ id name. on_memory (λ now. mark_running now id name);
    complete_state = λ id name output. on_memory (λ now. complete_state now id name output);
    fail_state = λ id name msg. on_memory (λ now. fail_state now id name msg);
    get_state_output = λ id name. on_memory (λ _. get_state_output id name);
    list_states = λ id. on_memory (λ _. list_states id);
    create_service = λ r. on_memory (λ now. create_service now r);
    get_service = λ name. on_memory (λ _. get_service name);
    list_services = on_memory (λ _. list_services);
    update_service_status =
        λ name status ip. on_memory (λ now. update_service_status now name status ip);
    delete_service = λ name. on_memory (λ _. delete_service name);
  }
