-- ===== src/Scenarios/Mongo.antt =====
-- Calls on the Mongo store, over a list of documents and a map of objects.
use Prim.Native.String.{◌++◌ as ◌<>◌}
use state_graph.Prelude.{
  Option, inl, String, ℕ, zero, suc, ◌≡◌, refl, sym, ◌∙◌, ap, true, none, some, List, [], ◌∷◌,
  arith,
}
use state_graph.Dict.{Dict, lookup, insert, lookup-insert_self}
use state_graph.Values.{Obj, other, no_such_key, state_already_terminal, state_not_completed}
use state_graph.Exec.{branch, ok, err}
use state_graph.Store.{StateRecord}
use state_graph.Store.Memory.Keys.{IsColonFree}
use state_graph.Store.Memory.Records.{Records, call_spec, writes_ahead}
use state_graph.Store.Memory.{new_memory_store}
use state_graph.Store.Memory.Refines as Memory
use state_graph.Store.Memory.Refines.{calls_spec}
use state_graph.Store.Mongo.Driver.{Collection}
use state_graph.Store.Mongo.Objects.{ObjectStore, S3, KeepsObjects}
use state_graph.Store.Mongo.{StateDoc, MongoStore, Encoding}
use state_graph.Store.Mongo.States.{write_ahead_state, get_state_output, complete_state}
use state_graph.Store.Mongo.Tracks.{Tracks}
use state_graph.Store.Mongo.Updates.{IsDriver, Survives, survives_or_null}
use state_graph.Store.Mongo.Calls.{Admits}
use state_graph.Store.Mongo.Ahead.{ahead-refines}
use state_graph.Store.Mongo.Interrupted.{interrupted-write_ahead_state}
use state_graph.Store.Mongo.Large.{IsSlashFree, complete_state-get_state_output}
use state_graph.Store.Mongo.Refines.{calls, mongo_calls-refines, mongo_calls_eq}
use state_graph.Scenarios.Documents.{first, collection, collection_laws}
use state_graph.Scenarios.Stores.{empty-Agree, first_row, pay_calls, no_records, e1-IsColonFree}

abbrev pub Server : Type 0
Server = List StateDoc × Dict String

abbrev tally : ℕ → String
tally zero = ""
tally (suc n) = String.◌∷◌ "|" (tally n)

size : String → ℕ
size String.[] = 0
size (String.◌∷◌ c s) = suc (size s)

size-tally : (n : ℕ) → size (tally n) ≡ n
unfolding size
size-tally zero = refl
size-tally (suc n) = ap suc (size-tally n)

tally-injective : (a b : ℕ) → tally a ≡ tally b → a ≡ b
tally-injective a b h = sym (size-tally a) ∙ ap size h ∙ size-tally b

abbrev paid : Obj
paid = ("paid", other 1) ∷ []

-- outputs whose JSON has so many bytes
abbrev pub encoding : ℕ → Encoding
encoding bytes = record {
  marshal = λ _. ok "{}";
  unmarshal = λ _. ok paid;
  byte_length = λ _. bytes;
  decimal = tally;
  survives = λ m. true;
}

abbrev pub unused : {D : Type 0} → Collection Server D
unused = record {
  insert_one = λ d w. (err no_such_key, w);
  find_one = λ p sort w. (err no_such_key, w);
  find = λ p options w. (err no_such_key, w);
  update_one = λ p f w. (err no_such_key, w);
  delete_one = λ p w. (err no_such_key, w);
}

abbrev pub client : S3 Server
client = record {
  put_object = λ bucket key bytes w. (ok tt, (w.0, insert (bucket <> key) bytes w.1));
  get_object = λ bucket key w. elim (lookup (bucket <> key) w.1) [
    | none ↦ (err no_such_key, w)
    | some bytes ↦ (ok (record { bytes = bytes; stopped = true } ∷ []), w)
  ];
}

abbrev pub bucket : ObjectStore Server
bucket = record { client = client; bucket_name = "outputs" }

abbrev mongo : ℕ → MongoStore Server
mongo bytes = record {
  executions = unused;
  states = collection (λ d. d.id);
  services = unused;
  object_store = some bucket;
  encoding = encoding bytes;
  now = λ _. 7;
}

-- each map survives
kept : (bytes : ℕ) (m : Option Obj) → survives_or_null (encoding bytes) m ≡ true
kept bytes none = refl
kept bytes (some m) = refl

abbrev driver : (bytes : ℕ) → IsDriver (mongo bytes)
driver bytes =
    collection_laws (λ d. d.id) (Survives (encoding bytes))
      (λ d. (kept bytes d.input, kept bytes d.output))

abbrev pub empty : Server
empty = ([], [])

empty-Tracks : (bytes : ℕ) → Tracks tally ((driver bytes).docs empty) no_records
empty-Tracks bytes = record {
  named = λ d s. absurd (ground (arith, s));
  follows = λ e n p q d s. absurd (ground (arith, s));
}

pay-IsColonFree : IsColonFree "pay"
pay-IsColonFree =
    ((λ h. omega (arith, h)), ((λ h. omega (arith, h)), ((λ h. omega (arith, h)), tt)))

pay_calls-Admits : Admits (encoding 2) pay_calls no_records
unfolding call_spec
pay_calls-Admits = (
  e1-IsColonFree,
  pay-IsColonFree,
  (tt, refl),
  (
    e1-IsColonFree,
    pay-IsColonFree,
    tt,
    (
      e1-IsColonFree,
      pay-IsColonFree,
      ("{}", refl, refl, refl, refl),
      (
        e1-IsColonFree,
        pay-IsColonFree,
        tt,
        (e1-IsColonFree, pay-IsColonFree, ((λ h. absurd (ground (arith, h))), refl), tt),
      ),
    ),
  ),
)

mongo_calls-refines_example : calls (mongo 2) pay_calls empty ≡ calls_spec pay_calls no_records
mongo_calls-refines_example =
    mongo_calls-refines (mongo 2) (driver 2) tally-injective pay_calls empty no_records
      pay_calls-Admits (empty-Tracks 2)

-- after the write-ahead of the first row
abbrev ahead : ℕ → Server
ahead bytes = (write_ahead_state (mongo bytes) first_row empty).1

abbrev one_record : Records
one_record = (call_spec 7 (writes_ahead first_row) no_records).1

abbrev pending_row : StateRecord
pending_row = record first_row { created_at = 7; updated_at = 7 }

found : one_record "e1" "pay" ≡ some pending_row
unfolding call_spec
found = refl

ahead-Tracks : (bytes : ℕ) → Tracks tally ((driver bytes).docs (ahead bytes)) one_record
unfolding write_ahead_state call_spec branch first
ahead-Tracks bytes =
    (ahead-refines (mongo bytes) (driver bytes) tally-injective empty no_records
      (empty-Tracks bytes) first_row e1-IsColonFree pay-IsColonFree tt refl 7).1

interrupted-write_ahead_state_example :
    (write_ahead_state (mongo 2) first_row (ahead 2) ≡ (err state_already_terminal, ahead 2))
    × (get_state_output (mongo 2) "e1" "pay" (ahead 2) ≡ (err state_not_completed, ahead 2))
interrupted-write_ahead_state_example =
    interrupted-write_ahead_state (mongo 2) (driver 2) tally-injective (ahead 2) one_record
      (ahead-Tracks 2) first_row pending_row e1-IsColonFree pay-IsColonFree found refl refl

abbrev client_laws : KeepsObjects client
client_laws = record {
  holds = λ w bucket key. lookup (bucket <> key) w.1;
  kept = λ bucket key bytes w. (_, refl, lookup-insert_self (bucket <> key) bytes w.1);
  delivered = λ bucket key bytes w h.
      (record { bytes = bytes; stopped = true } ∷ [], rw (client, h) refl, inl (refl, refl));
}

outputs-IsSlashFree : IsSlashFree "outputs"
outputs-IsSlashFree = (
  (λ h. omega (arith, h)),
  (
    (λ h. omega (arith, h)),
    (
      (λ h. omega (arith, h)),
      (
        (λ h. omega (arith, h)),
        ((λ h. omega (arith, h)), ((λ h. omega (arith, h)), ((λ h. omega (arith, h)), tt))),
      ),
    ),
  ),
)

complete_state-get_state_output_example :
    (w' : Server) × (complete_state (mongo 2000000) "e1" "pay" paid (ahead 2000000) ≡ (ok tt, w'))
    × (get_state_output (mongo 2000000) "e1" "pay" w' ≡ (ok paid, w'))
complete_state-get_state_output_example =
    complete_state-get_state_output (mongo 2000000) (driver 2000000) tally-injective bucket
      client_laws (λ b k x w. refl) (λ p f w. refl) refl outputs-IsSlashFree paid "{}" refl refl
      (λ uri. refl) refl (ahead 2000000) one_record (ahead-Tracks 2000000) "e1" "pay" pending_row
      e1-IsColonFree pay-IsColonFree found

mongo_calls_eq_example : calls (mongo 2) pay_calls empty ≡ Memory.calls pay_calls new_memory_store
mongo_calls_eq_example =
    mongo_calls_eq (mongo 2) (driver 2) tally-injective pay_calls empty new_memory_store no_records
      pay_calls-Admits (empty-Tracks 2) empty-Agree
