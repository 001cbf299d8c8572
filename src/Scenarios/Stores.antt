-- ===== src/Scenarios/Stores.antt =====
-- A sequence of calls on the memory store.
use state_graph.Prelude.{◌≡◌, refl, none, List, [], ◌∷◌, arith, All}
use state_graph.Dict.{lookup}
use state_graph.Values.{other, Status}
use state_graph.Store.{Time, StateRecord}
use state_graph.Store.Memory.{new_memory_store}
use state_graph.Store.Memory.Keys.{IsColonFree}
use state_graph.Store.Memory.Records.{
  Call, Records, writes_ahead, marks_running, completes, reads_output, execution_of,
}
use state_graph.Store.Memory.Refines.{Agree, calls, calls_spec, calls-refines}

abbrev pub first_row : StateRecord
first_row = record {
  execution_id = "e1";
  state_name = "pay";
  status = Status.pending;
  input = none;
  output = [];
  error = "";
  attempt = 1;
  resume_at = none;
  created_at = 0;
  updated_at = 0;
}

abbrev pub pay_calls : List (Time × Call)
pay_calls =
    (1, writes_ahead first_row)
    ∷ (2, marks_running "e1" "pay")
    ∷ (3, completes "e1" "pay" (("paid", other 1) ∷ []))
    ∷ (4, reads_output "e1" "pay")
    ∷ (5, writes_ahead first_row)
    ∷ []

abbrev pub no_records : Records
no_records e n = none

pub empty-Agree : Agree new_memory_store no_records
unfolding lookup
empty-Agree e n h = refl

pub e1-IsColonFree : IsColonFree "e1"
e1-IsColonFree = ((λ h. omega (arith, h)), ((λ h. omega (arith, h)), tt))

pay_calls-IsColonFree : All (λ c. IsColonFree (execution_of c.1)) pay_calls
pay_calls-IsColonFree =
    (e1-IsColonFree, (e1-IsColonFree, (e1-IsColonFree, (e1-IsColonFree, (e1-IsColonFree, tt)))))

calls-refines_example : calls pay_calls new_memory_store ≡ calls_spec pay_calls no_records
calls-refines_example =
    calls-refines pay_calls new_memory_store no_records pay_calls-IsColonFree empty-Agree
