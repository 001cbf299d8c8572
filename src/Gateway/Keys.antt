-- ===== src/Gateway/Keys.antt =====
-- Which requests the API key lets through (internal/grpc/gateway.go, authMiddleware).
use Prim.Native.Char.{Char}
use Prim.Native.String.{◌++◌ as ◌<>◌}
use text.Mathlib.TextLemmas.{nil-append, cons-append}
use state_graph.Prelude.{
  String, ◌≡◌, refl, ◌≢◌, ◌⊎◌, inl, inr, false, ◌==◌, eq_iff, eq_refl, Option, some, arith,
  Bool-cases,
}
use state_graph.Exec.{Exec, pure}
use state_graph.Gateway.Auth.{cut_prefix, head_is, provided_token, auth_middleware}

head_is_self : (c : Char) (rest : Option String) → head_is c c rest ≡ rest
head_is_self c rest = ground arith

pub cut_prefix-append : (p s : String) → cut_prefix p (p <> s) ≡ some s
unfolding cut_prefix
cut_prefix-append String.[] s = rw (nil-append) refl
cut_prefix-append (String.◌∷◌ c p) s = rw (cons-append, head_is_self, cut_prefix-append p s) refl

-- the credential of a header that has one
pub provided_token-bearer :
    (key query : String) → (key == "") ≡ false → provided_token ("Bearer " <> key) query ≡ key
unfolding provided_token
provided_token-bearer key query h = rw (cut_prefix-append "Bearer " key, h) refl

-- With an API key set, a request goes on to the handler if the credential of its header, or else that
-- of its query, is the key, and is answered with `unauthorized` otherwise, before the handler runs;
-- the header "Bearer " with the key is such a credential.
auth_middleware-decides :
    {W R : Type 0} (api_key : String) (unauthorized : R) (next : Exec W R)
    → (api_key == "") ≡ false
    → ((header query : String)
        → ((provided_token header query ≡ api_key)
            × (auth_middleware api_key unauthorized header query next ≡ next))
          ⊎ ((provided_token header query ≢ api_key)
              × (auth_middleware api_key unauthorized header query next ≡ pure unauthorized)))
      × ((query : String)
          → auth_middleware api_key unauthorized ("Bearer " <> api_key) query next ≡ next)
unfolding auth_middleware
auth_middleware-decides api_key unauthorized next h = (
  λ header query. elim (Bool-cases (provided_token header query == api_key)) [
    | inl q ↦ inl ((eq_iff (provided_token header query) api_key).0 q, rw (h, q) refl)
    | inr q ↦ inr (
      λ e. absurd (ground (arith, q, eq_iff (provided_token header query) api_key, e)),
      rw (h, q) refl,
    )
  ],
  λ query. rw (h, provided_token-bearer api_key query h, eq_refl) refl,
)
