-- ===== src/Callback/Calls.antt =====
-- What a call back from a job does to the store.
use state_graph.Prelude.{
  String, ℕ, ◌≡◌, refl, ap, ◌≢◌, inl, inr, true, false, Option, some, arith, ◌==◌, eq_iff,
  Bool-cases, if◌then◌else◌,
}
use state_graph.Dict.{lookup, lookup-insert_self, lookup-insert_ne}
use state_graph.Values.{Obj, Error, internal, missing_token, rejected_token}
use state_graph.Exec.{ok, err, pure, raise, branch, branch-ok, branch-err}
use state_graph.Store.{StateRecord}
use state_graph.Store.Memory.{state_key}
use state_graph.Store.Memory.Services.{World, memory_store}
use state_graph.Store.Memory.Rows.{complete_state-found, get_state_output-found}
use state_graph.Callback.Token.{TokenPayload, Crypto, Bytes, validate_state_token, split_dot}
use state_graph.Callback.{
  Server, validate_token, get_input, complete_state, fail_state, output_or_nil,
}

-- the error of a call whose token is not accepted
abbrev pub refusal : String → Error
refusal token = if token == "" then missing_token else rejected_token

text_of : (token : String) → (token == "") ≡ true → token ≡ ""
text_of token h = ground (arith, eq_iff token "")

given_token :
    (crypto : Crypto) (now : ℕ) (token : String) (secret : Bytes) {p : TokenPayload}
    → validate_state_token crypto now token secret ≡ ok p
    → (token == "") ≡ false
unfolding validate_state_token split_dot
given_token crypto now token secret h = elim (Bool-cases (token == "")) [
  | inl empty ↦ cc (rw (text_of token empty, validate_state_token, split_dot) at h)
  | inr given ↦ given
]

module _ {W : Type 0} (s : Server W) where
  refuses :
      (token : String) (w : W) {e : Error}
      → validate_state_token s.crypto (s.unix_now w) token s.secret ≡ err e
      → validate_token s token w ≡ (err (refusal token), w)
  unfolding validate_token branch
  refuses token w h = elim (Bool-cases (token == "")) [
    | inl empty ↦ rw empty refl
    | inr given ↦ rw (given, h) refl
  ]

  admits :
      (token : String) (w : W) {p : TokenPayload}
      → validate_state_token s.crypto (s.unix_now w) token s.secret ≡ ok p
      → validate_token s token w ≡ (ok p, w)
  unfolding validate_token branch
  admits token w h = rw (given_token s.crypto (s.unix_now w) token s.secret h, h) refl

  -- A call whose token is not accepted returns the refusal and leaves the world as it was: neither
  -- the store nor anything else is called.
  calls-refused :
      (token : String) (w : W) (e : Error) (output : Option Obj) (message : String)
      → validate_state_token s.crypto (s.unix_now w) token s.secret ≡ err e
      → (get_input s token w ≡ (err (refusal token), w))
        × (complete_state s token output w ≡ (err (refusal token), w))
        × (fail_state s token message w ≡ (err (refusal token), w))
  unfolding get_input complete_state fail_state raise
  calls-refused token w e output message h =
      let refused = refuses token w h in
      (branch-err _ _ _ w refused, branch-err _ _ _ w refused, branch-err _ _ _ w refused)

  complete_state-admitted :
      (token : String) (w : W) {p : TokenPayload} (output : Option Obj)
      → validate_state_token s.crypto (s.unix_now w) token s.secret ≡ ok p
      → complete_state s token output w
        ≡ branch
            (s.store.complete_state p.exec_id p.state (output_or_nil output))
            pure
            (λ failure. raise (internal failure))
            w
  unfolding complete_state
  complete_state-admitted token w output h = branch-ok _ _ _ w (admits token w h)

-- An accepted token completes the state it names, and no other: the store then returns the output
-- that was sent for this state, and the records of all other keys are what they were.
pub complete_state-completes :
    {U : Type 0} (s : Server (World U)) (token : String) (w : World U) (p : TokenPayload)
    (r : StateRecord) (output : Option Obj)
    → s.store ≡ memory_store
    → validate_state_token s.crypto (s.unix_now w) token s.secret ≡ ok p
    → lookup (state_key p.exec_id p.state) w.memory.states ≡ some r
    → let (reply, after) = complete_state s token output w in
      (reply ≡ ok tt)
      × ((memory_store.get_state_output p.exec_id p.state after).0 ≡ ok (output_or_nil output))
      × ((key : String)
          → state_key p.exec_id p.state ≢ key
          → lookup key after.memory.states ≡ lookup key w.memory.states)
unfolding branch pure
complete_state-completes s token w p r output is_memory accepted found =
    rw
      (
        complete_state-admitted s token w output accepted,
        is_memory,
        complete_state-found w.clock p.exec_id p.state w.memory (output_or_nil output) found,
      )
      (
        refl,
        ap (λ x. x.0)
            (get_state_output-found p.exec_id p.state _ _ (lookup-insert_self _ _ _) refl),
        λ key other. lookup-insert_ne _ key _ _ other,
      )
