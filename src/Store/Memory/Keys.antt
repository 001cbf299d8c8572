-- ===== src/Store/Memory/Keys.antt =====
-- `stateKey` joins two names by a colon. Execution ids are UUIDs, which hold no colon.
use Prim.Native.Char.{Char, code}
use text.Mathlib.TextLemmas.{nil-append, cons-append, head-eq_of_cons-eq, tail-eq_of_cons-eq}
use mathlib.Core.Path.{ap₂}
use state_graph.Prelude.{String, ◌≡◌, refl, sym, ◌∙◌, ap, ◌≢◌}
use state_graph.Store.Memory.{state_key}

abbrev pub IsColonFree : String → Type 0
IsColonFree String.[] = Unit
IsColonFree (String.◌∷◌ c s) = (code c ≢ 58) × IsColonFree s

colon : Char
colon = ":"

state_key-nil : (x : String) → state_key String.[] x ≡ String.◌∷◌ colon x
unfolding state_key colon
state_key-nil x =
    nil-append _ ∙ cons-append colon String.[] x ∙ ap (String.◌∷◌ colon) (nil-append x)

state_key-cons :
    (c : Char) (s x : String) → state_key (String.◌∷◌ c s) x ≡ String.◌∷◌ c (state_key s x)
unfolding state_key
state_key-cons c s x = cons-append c s _

colon_not : (c : Char) (x y : String) → String.◌∷◌ colon x ≡ String.◌∷◌ c y → code c ≡ 58
unfolding colon
colon_not c x y e = sym (ap code (head-eq_of_cons-eq e))

-- Two state records whose execution ids hold no colon have one key only if they belong to the same
-- execution and the same state.
pub state_key-injective :
    (a b x y : String)
    → IsColonFree a
    → IsColonFree b
    → state_key a x ≡ state_key b y
    → (a ≡ b) × (x ≡ y)
state_key-injective String.[] String.[] x y p q e =
    (refl, tail-eq_of_cons-eq (sym (state_key-nil x) ∙ e ∙ state_key-nil y))
state_key-injective String.[] (String.◌∷◌ c b) x y p q e =
    absurd (q.0 (colon_not c x (state_key b y) (sym (state_key-nil x) ∙ e ∙ state_key-cons c b y)))
state_key-injective (String.◌∷◌ c a) String.[] x y p q e =
    absurd
      (p.0 (colon_not c y (state_key a x) (sym (state_key-nil y) ∙ sym e ∙ state_key-cons c a x)))
state_key-injective (String.◌∷◌ c a) (String.◌∷◌ d b) x y p q e =
    let e' = sym (state_key-cons c a x) ∙ e ∙ state_key-cons d b y in
    let (same, rest) = state_key-injective a b x y p.1 q.1 (tail-eq_of_cons-eq e') in
    (ap₂ String.◌∷◌ (head-eq_of_cons-eq e') same, rest)
