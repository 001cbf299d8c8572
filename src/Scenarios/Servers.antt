-- ===== src/Scenarios/Servers.antt =====
-- Requests to the servers, runs of the log hub, and an environment.
use state_graph.Prelude.{
  String, ℕ, suc, ℤ, pos, negsuc, leb, ◌&&◌, subst, ◌≡◌, refl, Bool, true, ◌==◌, Option, none, some,
  [], arith, ltb, All, if◌then◌else◌,
}
use state_graph.Dict.{lookup}
use state_graph.Values.{Obj, external}
use state_graph.Exec.{ok, err, Exec}
use state_graph.Graph.{WorkflowGraph}
use state_graph.Store.Memory.{new_memory_store}
use state_graph.Store.Memory.Services.{World, memory_store}
use state_graph.Telemetry.{LogRow, LogFilter, log_conditions}
use state_graph.Telemetry.Filter.{matches_log_filter, contains}
use state_graph.Telemetry.Agrees.{all_hold, matches_log_filter-query}
use state_graph.Gateway.{service_status_pending}
use state_graph.Gateway.Records.{RegisterServiceRequest, register_service, get_service}
use state_graph.Gateway.Outcomes.{register_service-get_service}
use state_graph.Api.{Response, success, problem, executions}
use state_graph.Callback.Tokens.{IsDotFree}
use state_graph.Api.Sessions.{TokenPayload, Signing, issue_session_token, validate_token}
use state_graph.Api.Tokens.{Documented, validate_token-issue_session_token}
use state_graph.Api.Hubs.{new_log_hub, subscribe, publish}
use state_graph.Api.Channels.{IsServed, start, then_step, subscribes, publishes, Reachable-IsServed}
use state_graph.Config.{config_of, load_config}
use state_graph.Config.Bounds.{IsUsable, load_config-IsUsable}

abbrev pub quiet : World ℕ
quiet = record { memory = new_memory_store; clock = 5; user = 0 }

abbrev billing : RegisterServiceRequest
billing = record {
  name = "billing";
  mode = "lambda";
  port = pos 8080;
  min_scale = pos 1;
  max_scale = pos 3;
  ingress_host = "";
  timeout_seconds = pos 30;
}

register_service-get_service_example :
    (w' : World ℕ) × (register_service memory_store billing quiet ≡ (ok "billing", w'))
    × (get_service memory_store "billing" w' ≡ (
      ok (record {
        name = "billing";
        mode = "lambda";
        port = pos 8080;
        min_scale = pos 1;
        max_scale = pos 3;
        ingress_host = "";
        cluster_ip = "";
        status = service_status_pending;
        created_at = 5;
        updated_at = 5;
      }),
      w',
    ))
unfolding lookup
register_service-get_service_example =
    register_service-get_service billing quiet refl refl (omega arith) (omega arith) (omega arith)

abbrev pub bytes : ℕ → ℕ
bytes i = i

-- the goroutine counts
abbrev counts : String → WorkflowGraph → Option Obj → World ℕ → World ℕ
counts id g input w = record w { user = suc w.user }

abbrev refused : Response
refused = problem 401 "unauthorized" "auth_required"

abbrev next : Exec ℕ Response
next w = (ok (success 200 (executions [])), suc w)

abbrev everything : LogFilter
everything = record {
  execution_id = "e1";
  service_name = "";
  state_name = "";
  level = "";
  since = none;
  until = none;
  query = "paid";
  limit = pos 0;
  offset = pos 0;
}

abbrev paid_row : LogRow
paid_row = record {
  log_id = "1";
  execution_id = "e1";
  service_name = "";
  state_name = "pay";
  level = "INFO";
  message = "order paid";
  occurred_at = 3;
}

Reachable-IsServed_example :
    All IsServed (publish paid_row (subscribe everything new_log_hub)).subscribers
Reachable-IsServed_example =
    Reachable-IsServed (then_step (then_step start (subscribes everything)) (publishes paid_row))

abbrev is_like : String → String → Bool
is_like pattern text = pattern == "%paid%" && contains "paid" text

matches_log_filter-query_example :
    matches_log_filter paid_row everything ≡ all_hold is_like paid_row (log_conditions everything)
matches_log_filter-query_example =
    matches_log_filter-query is_like paid_row everything refl refl refl

abbrev the_session : TokenPayload
the_session = record { issued_at = 100; expires_at = 86500 }

abbrev is_session : TokenPayload → Bool
is_session p =
    leb p.issued_at 100 && leb 100 p.issued_at && leb p.expires_at 86500 && leb 86500 p.expires_at

-- A toy: it marshals this session only, and its signature is the key.
abbrev signing : Signing
signing = record {
  marshal = λ p. if is_session p then ok "payload" else err (external "unsupported");
  unmarshal = λ s. if s == "payload" then some the_session else none;
  encode = λ s. s;
  decode = λ s. some s;
  hmac = λ key payload. key;
}

times_eq :
    (a b : ℕ)
    → a ≡ 100
    → b ≡ 86500
    → ◌≡◌ {A = TokenPayload} (record { issued_at = a; expires_at = b }) the_session
times_eq a b p q = rw (p, q) refl

session_eq : (p : TokenPayload) → is_session p ≡ true → p ≡ the_session
session_eq p h = times_eq p.issued_at p.expires_at (ground arith) (ground arith)

marshalled :
    (p : TokenPayload) (s : String)
    → signing.marshal p ≡ ok s
    → (is_session p ≡ true) × ("payload" ≡ s)
marshalled p s h = ground arith

payload-IsDotFree : IsDotFree "payload"
payload-IsDotFree = (
  (λ h. omega (arith, h)),
  (
    (λ h. omega (arith, h)),
    (
      (λ h. omega (arith, h)),
      (
        (λ h. omega (arith, h)),
        ((λ h. omega (arith, h)), ((λ h. omega (arith, h)), ((λ h. omega (arith, h)), tt))),
      ),
    ),
  ),
)

signing-Documented : Documented signing
signing-Documented = record {
  encode-IsDotFree = λ p s h. subst IsDotFree (marshalled p s h).1 payload-IsDotFree;
  decode-encode = λ s. refl;
  unmarshal-marshal = λ p s h. rw (← (marshalled p s h).1, session_eq p (marshalled p s h).0) refl;
}

issued : issue_session_token signing 100 "secret" ≡ ok "payload.secret"
unfolding issue_session_token
issued = refl

validate_token-issue_session_token_example :
    validate_token signing 200 "payload.secret" "secret" ≡ ltb 200 86500
validate_token-issue_session_token_example =
    validate_token-issue_session_token signing signing-Documented 100 200 "secret" "payload.secret"
      issued refl

-- it reads one number
abbrev atoi : String → Option ℤ
atoi s = if s == "-3" then some (negsuc 2) else none

abbrev getenv : String → String
getenv name = if name == "KFLOW_MONGO_URI" then "mongodb://db" else ""

size : String → ℕ
size String.[] = 0
size (String.◌∷◌ c s) = suc (size s)

loaded : load_config size getenv ≡ ok (config_of getenv)
unfolding load_config size
loaded = refl

load_config-IsUsable_example : IsUsable size (config_of getenv)
load_config-IsUsable_example = load_config-IsUsable size getenv (config_of getenv) loaded
