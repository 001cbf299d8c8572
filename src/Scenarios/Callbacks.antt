-- ===== src/Scenarios/Callbacks.antt =====
-- Tokens over an encoding that has no dot, the calls made with them, and the name of a job.
use Prim.Native.Char.{code}
use state_graph.Prelude.{
  String, ℕ, zero, suc, ℤ, pos, ◌+◌, ◌≡◌, refl, ◌↔◌, subst, Bool, true, false, none, some, [], ◌∷◌,
  arith, eq_iff, leb, ◌&&◌, ◌==◌, negsuc, ap, ltb, if◌then◌else◌,
}
use state_graph.Dict.{lookup}
use state_graph.Values.{Status, external, invalid_token}
use state_graph.Exec.{ok, err}
use state_graph.Store.{StateRecord}
use state_graph.Store.Memory.{new_memory_store, state_key}
use state_graph.Store.Memory.Services.{World, memory_store}
use state_graph.Callback.Token.{
  Bytes, TokenPayload, TokenClaims, Crypto, generate_state_token, validate_state_token, split_dot,
}
use state_graph.Callback.Tokens.{
  Documented, IsDotFree, Accepted, validate-generate, validate_state_token_iff,
}
use state_graph.Callback.{Server}
use state_graph.Kubernetes.{Unicode, job_name}
use state_graph.Kubernetes.Names.{IsDnsLabel, job_name-IsDnsLabel}

abbrev is_one : ℤ → Bool
is_one (pos n) = leb n 1 && leb 1 n
is_one _ = false

abbrev the_claims : TokenClaims
the_claims = record { exec_id = "e1"; state_name = "pay"; attempt = pos 1; expires_at = 86407 }

abbrev are_the_claims : TokenClaims → Bool
are_the_claims c =
    c.exec_id == "e1"
    && c.state_name == "pay"
    && is_one c.attempt
    && leb c.expires_at 86407
    && leb 86407 c.expires_at

-- A toy: it marshals these claims only, and its signature is the secret's length in words.
abbrev pub toy : Crypto
toy = record {
  marshal = λ c. if are_the_claims c then ok "payload" else err (external "unsupported");
  unmarshal = λ s. if s == "payload" then some the_claims else none;
  encode = λ s. s;
  decode = λ s. some s;
  hmac = λ secret s. "signed";
}

one_eq : (a : ℤ) → is_one a ≡ true → a ≡ pos 1
one_eq (pos n) h = ap pos (ground arith)
one_eq (negsuc n) h = cc

fields_eq :
    (e n : String) (a : ℤ) (x : ℕ)
    → e ≡ "e1"
    → n ≡ "pay"
    → a ≡ pos 1
    → x ≡ 86407
    → ◌≡◌ {A = TokenClaims}
        (record { exec_id = e; state_name = n; attempt = a; expires_at = x })
        the_claims
fields_eq e n a x he hn ha hx = rw (he, hn, ha, hx) refl

claims_eq : (c : TokenClaims) → are_the_claims c ≡ true → c ≡ the_claims
claims_eq c h =
    fields_eq c.exec_id c.state_name c.attempt c.expires_at (ground (arith, eq_iff c.exec_id "e1"))
      (ground (arith, eq_iff c.state_name "pay")) (one_eq c.attempt (ground arith)) (ground arith)

toy-Documented : Documented toy
toy-Documented = record {
  encode-IsDotFree = λ c s h. subst IsDotFree (marshalled c s h).1 payload-IsDotFree;
  decode-encode = λ c s h. refl;
  unmarshal-marshal = λ c s h. rw (← (marshalled c s h).1, claims_eq c (marshalled c s h).0) refl;
}
  where
    payload-IsDotFree : IsDotFree "payload"
    payload-IsDotFree = (
      (λ h. omega (arith, h)),
      (
        (λ h. omega (arith, h)),
        (
          (λ h. omega (arith, h)),
          (
            (λ h. omega (arith, h)),
            ((λ h. omega (arith, h)), ((λ h. omega (arith, h)), ((λ h. omega (arith, h)), tt))),
          ),
        ),
      ),
    )

    marshalled :
        (c : TokenClaims) (s : String)
        → toy.marshal c ≡ ok s
        → (are_the_claims c ≡ true) × ("payload" ≡ s)
    marshalled c s h = ground arith

abbrev pub secret : Bytes
secret = replicate 32
  where
    replicate : ℕ → Bytes
    replicate zero = []
    replicate (suc n) = 7 ∷ replicate n

generated : generate_state_token toy 7 "e1" "pay" (pos 1) secret ≡ ok "payload.signed"
unfolding generate_state_token
generated = refl

abbrev pub pay_payload : TokenPayload
pay_payload = record { exec_id = "e1"; state = "pay"; attempt = pos 1; expires_at = 86407 }

pub accepted : validate_state_token toy 8 "payload.signed" secret ≡ ok pay_payload
unfolding validate_state_token split_dot
accepted = refl

validate-generate_example : validate_state_token toy 8 "payload.signed" secret ≡ (
    if ltb (7 + 86400) 8
    then err invalid_token
    else ok (record { exec_id = "e1"; state = "pay"; attempt = pos 1; expires_at = 7 + 86400 }))
validate-generate_example =
    validate-generate toy toy-Documented 7 8 "e1" "pay" (pos 1) secret "payload.signed" generated

validate_state_token_iff_example :
    (validate_state_token toy 8 "payload.signed" secret ≡ ok pay_payload)
    ↔ Accepted toy 8 "payload.signed" secret pay_payload
validate_state_token_iff_example =
    validate_state_token_iff toy 8 "payload.signed" secret pay_payload

abbrev pub server : Server (World ℕ)
server = record {
  store = memory_store;
  secret = secret;
  crypto = toy;
  unix_now = λ w. w.clock;
  new_struct = λ input. ok input;
}

abbrev pub pay_row : StateRecord
pay_row = record {
  execution_id = "e1";
  state_name = "pay";
  status = Status.running;
  input = none;
  output = [];
  error = "";
  attempt = 1;
  resume_at = none;
  created_at = 0;
  updated_at = 0;
}

abbrev pub world : World ℕ
world = record {
  memory = record new_memory_store { states = (state_key "e1" "pay", pay_row) ∷ [] };
  clock = 8;
  user = 0;
}

pay-found : lookup (state_key "e1" "pay") world.memory.states ≡ some pay_row
unfolding lookup state_key
pay-found = refl

forged : validate_state_token toy 8 "payload.forged" secret ≡ err invalid_token
unfolding validate_state_token split_dot
forged = refl

-- letters by their ASCII codes
abbrev pub ascii : Unicode
ascii = record {
  is_upper = λ c. leb 65 (code c) && leb (code c) 90;
  is_lower = λ c. leb 97 (code c) && leb (code c) 122;
  is_digit = λ c. leb 48 (code c) && leb (code c) 57;
  is_letter = λ c. leb 65 (code c) && leb (code c) 122;
  to_lower = λ c. "x";
}

job_name-IsDnsLabel_example : IsDnsLabel (job_name ascii "e1-7" "ValidateOrder")
job_name-IsDnsLabel_example =
    job_name-IsDnsLabel ascii "e1-7" "ValidateOrder" (refl, (refl, (refl, (refl, tt))))
