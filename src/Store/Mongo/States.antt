-- ===== src/Store/Mongo/States.antt =====
-- internal/store/mongo_store.go, the methods on states.
use Prim.Native.String.{◌++◌ as ◌<>◌}
use state_graph.Prelude.{
  String, ℕ, ◌&&◌, ◌==◌, Option, none, some, List, [], ◌∷◌, map, ltb, pos, if◌then◌else◌,
}
use state_graph.Values.{
  str, Obj, pending, running, completed, failed, state_not_found, state_not_completed,
  state_already_terminal, output_too_large, wrapped,
}
use state_graph.Exec.{Exec, pure, raise, panic, of_result, inspect, branch, wrap, ◌>>=◌, ◌>>◌}
use state_graph.Store.{Time, StateRecord}
use state_graph.Store.Memory.{is_completed}
use state_graph.Store.Mongo.Driver.{unsorted, ascending}
use state_graph.Store.Mongo.Objects.{ObjectStore, put_object, get_object}
use state_graph.Store.Mongo.{
  StateDoc, MongoStore, Encoding, input_to_m, m_to_input, state_doc_id, extract_s3_key,
  state_of_doc, of_state, latest, no_docs, duplicate, matched,
}

-- `output["_ref"]` of an output that has this entry alone, if it is a text that is not empty
abbrev pub ref_of : Obj → Option String
ref_of ((name, str ref) ∷ []) =
    if name == "_ref" then (if ref == "" then none else some ref) else none
ref_of _ = none

abbrev pub large_key : Encoding → String → String → ℕ → String
large_key enc exec_id state_name attempt =
    "executions/"
    <> (exec_id
        <> ("/states/" <> (state_name <> ("/attempt-" <> (enc.decimal attempt <> ".json")))))

-- the document that WriteAheadState inserts
abbrev pub new_state_doc : Encoding → Time → StateRecord → StateDoc
new_state_doc enc now r = record {
  id = state_doc_id enc.decimal r.execution_id r.state_name r.attempt;
  execution_id = r.execution_id;
  state_name = r.state_name;
  status = pending;
  input = some (input_to_m r.input);
  output = none;
  error = "";
  attempt = r.attempt;
  created_at = now;
  updated_at = now;
}

module _ {W : Type 0} (s : MongoStore W) where
  unfoldable pub insert_state : StateDoc → Exec W (Unit {0})
  insert_state doc =
      branch (s.states.insert_one doc) pure
        (λ e. raise (duplicate state_already_terminal (wrapped "store: write-ahead insert" "" e) e))

  unfoldable pub write_ahead_state : StateRecord → Exec W (Unit {0})
  unfolding insert_state
  write_ahead_state r =
      branch
        (s.states.find_one (λ d. of_state r.execution_id r.state_name d && is_completed d.status)
          unsorted)
        (λ _. raise state_already_terminal)
        (λ e.
          no_docs (inspect (λ w. insert_state (new_state_doc s.encoding (s.now w) r)))
            (raise (wrapped "store: write-ahead check" "" e)) e)

  unfoldable pub find_latest : String → String → String → Exec W StateDoc
  find_latest what exec_id state_name =
      branch (s.states.find_one (of_state exec_id state_name) latest) pure
        (λ e. raise (no_docs state_not_found (wrapped what "" e) e))

  unfoldable pub update_latest_state : String → String → (StateDoc → StateDoc) → Exec W (Unit {0})
  unfolding find_latest
  update_latest_state exec_id state_name fields = do
    doc ← find_latest "store: find state for update" exec_id state_name
    n ← wrap "store: update state" "" (s.states.update_one (λ d. d.id == doc.id) fields)
    matched state_not_found n

  unfoldable pub mark_running : String → String → Exec W (Unit {0})
  unfolding update_latest_state
  mark_running exec_id state_name = inspect λ w.
      update_latest_state exec_id state_name
        (λ d. record d { status = running; updated_at = s.now w })

  unfoldable pub fail_state : String → String → String → Exec W (Unit {0})
  unfolding update_latest_state
  fail_state exec_id state_name err_msg = inspect λ w.
      update_latest_state exec_id state_name
        (λ d. record d { status = failed; error = err_msg; updated_at = s.now w })

  -- the upload of an output that is too large, and the reference that is stored for it
  unfoldable pub offload : Option (ObjectStore W) → String → String → String → Exec W Obj
  unfolding find_latest put_object
  offload none exec_id state_name bytes = raise output_too_large
  offload (some objects) exec_id state_name bytes = do
    doc ← find_latest "store: find state for large output" exec_id state_name
    wrap "store: upload large output" ""
        (put_object objects (large_key s.encoding exec_id state_name doc.attempt) bytes)
    pure (
        (
          "_ref",
          str (
              "s3://"
              <> (objects.bucket_name
                  <> ("/" <> large_key s.encoding exec_id state_name doc.attempt))),
        )
        ∷ [])

  -- what is stored of an output: a reference when its JSON has more than 1<<20 bytes
  unfoldable pub stored_output : String → String → Obj → Exec W Obj
  unfolding offload
  stored_output exec_id state_name output = do
    bytes ← wrap "store: marshal output" "" (of_result (s.encoding.marshal output))
    if ltb 1048576 (s.encoding.byte_length bytes)
        then offload s.object_store exec_id state_name bytes
        else pure output

  unfoldable pub complete_state : String → String → Obj → Exec W (Unit {0})
  unfolding stored_output update_latest_state
  complete_state exec_id state_name output = do
    m ← stored_output exec_id state_name output
    inspect λ w.
        update_latest_state exec_id state_name
          (λ d. record d { status = completed; output = some m; updated_at = s.now w })

  -- a nil object store is a nil pointer
  unfoldable pub dereference : Option (ObjectStore W) → String → Exec W Obj
  unfolding get_object extract_s3_key
  dereference none ref = panic
  dereference (some objects) ref = do
    bytes ← wrap "store: dereference large output" "" (get_object objects (extract_s3_key ref))
    wrap "store: unmarshal large output" "" (of_result (s.encoding.unmarshal bytes))

  unfoldable pub resolve : Obj → Exec W Obj
  unfolding dereference
  resolve output = elim (ref_of output) [
    | none ↦ pure output
    | some ref ↦ dereference s.object_store ref
  ]

  unfoldable pub get_state_output : String → String → Exec W Obj
  unfolding find_latest resolve
  get_state_output exec_id state_name = do
    doc ← find_latest "store: get state output" exec_id state_name
    if is_completed doc.status then resolve (m_to_input doc.output) else raise state_not_completed

  unfoldable pub list_states : String → Exec W (List StateRecord)
  list_states exec_id = do
    docs ← wrap "store: list states" "" (
        s.states.find (λ d. d.execution_id == exec_id)
          (record { sort = ascending (λ d. d.attempt); limit = none; skip = pos 0 }))
    pure (map state_of_doc docs)
