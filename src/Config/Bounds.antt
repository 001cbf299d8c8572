-- ===== src/Config/Bounds.antt =====
-- What a configuration that was loaded satisfies.
use state_graph.Prelude.{
  String, ℕ, Bool, subst, ◌≡◌, refl, ◌≤◌, ◌⊎◌, inl, inr, true, false, ◌&&◌, ◌==◌, ltb, arith,
  Bool-cases, if◌then◌else◌,
}
use state_graph.Values.{Error}
use state_graph.Exec.{ok, err, Result}
use state_graph.Config.{Config, load_config, after, config_of, or_default, validate_mongo_uri}

-- The secret is empty or has 32 bytes at least, the URI has 10, and no port is empty.
pub record IsUsable (byte_length : String → ℕ) (c : Config) : Type 0 where
  pub secret : (byte_length c.runner_token_secret ≡ 0) ⊎ (32 ≤ byte_length c.runner_token_secret)
  pub uri : 10 ≤ byte_length c.mongo_uri
  pub ports :
      ((c.grpc_port == "") ≡ false)
      × ((c.runner_grpc_port == "") ≡ false)
      × ((c.service_grpc_port == "") ≡ false)

inj : {a b : Config} → ◌≡◌ {A = Result Config} (ok a) (ok b) → a ≡ b
inj h = cc

passed :
    (a b u : Bool) (e e' e'' : Error) (c' c : Config)
    → (if a then err e else if b then err e' else after (if u then err e'' else ok tt) c') ≡ ok c
    → (b ≡ false) × (u ≡ false) × (c' ≡ c)
passed true b u e e' e'' c' c h = absurd (ground (arith, h))
passed false true u e e' e'' c' c h = absurd (ground (arith, h))
passed false false true e e' e'' c' c h = absurd (ground (arith, h))
passed false false false e e' e'' c' c h = (refl, refl, inj h)

secret_size : (n : ℕ) → (ltb 0 n && ltb n 32) ≡ false → (n ≡ 0) ⊎ (32 ≤ n)
secret_size n h = ground (arith, h)

default_set : (value def : String) → (def == "") ≡ false → (or_default value def == "") ≡ false
default_set value def h = elim (Bool-cases (value == "")) [
  | inl q ↦ rw (q, h) refl
  | inr q ↦ rw (q, q) refl
]

-- A configuration that LoadConfig returns has a secret that is empty or has 32 bytes at least, a
-- MongoDB URI of 10 bytes at least, and ports that are not empty.
pub load_config-IsUsable :
    (byte_length : String → ℕ) (getenv : String → String) (c : Config)
    → load_config byte_length getenv ≡ ok c
    → IsUsable byte_length c
unfolding load_config validate_mongo_uri
load_config-IsUsable byte_length getenv c h =
    let n = byte_length (getenv "KFLOW_RUNNER_TOKEN_SECRET") in
    let uri = getenv "KFLOW_MONGO_URI" in
    let (b, u, e) =
      passed (uri == "") (ltb 0 n && ltb n 32) (ltb (byte_length uri) 10) _ _ _ (config_of getenv) c
        h in
    subst (IsUsable byte_length) e (record {
      secret = secret_size n b;
      uri = ground (arith, u);
      ports = (
        default_set (getenv "KFLOW_GRPC_PORT") "8080" refl,
        default_set (getenv "KFLOW_RUNNER_GRPC_PORT") "9090" refl,
        default_set (getenv "KFLOW_SERVICE_GRPC_PORT") "9091" refl,
      );
    })
