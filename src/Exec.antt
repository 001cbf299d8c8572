-- ===== src/Exec.antt =====
-- Go functions that change a world `W` and return `(A, error)`. What was written before an error or
-- a panic stays written, so the world comes back in every case.
pub mod Returns
pub mod Keeps
pub mod Ends
pub mod Settles
use state_graph.Prelude.{Option, none, some, String, ◌≡◌}
use state_graph.Values.{Error, wrapped}

-- `panics` unwinds to the caller; `running` says that the fuel ended while the code was running.
pub data Result {ℓ} (A : Type ℓ) : Type ℓ where
  ok : A → Result A
  err : Error → Result A
  panics running : Result A

pub ok-injective : {A : Type 0} {a b : A} → ok a ≡ ok b → a ≡ b
ok-injective h = cc

abbrev pub Exec : Type 0 → Type 0 → Type 0
Exec W A = W → Result A × W

module _ {W A : Type 0} where
  unfoldable pub pure : A → Exec W A
  pure a w = (ok a, w)

  unfoldable pub raise : Error → Exec W A
  raise e w = (err e, w)

  -- a call of a nil function value
  unfoldable pub panic : Exec W A
  panic w = (panics, w)

  unfoldable pub out_of_fuel : Exec W A
  out_of_fuel w = (running, w)

  -- a call that reads and writes no world
  unfoldable pub of_result : Result A → Exec W A
  of_result r w = (r, w)

  -- code that looks into the world where it stands
  unfoldable pub inspect : (W → Exec W A) → Exec W A
  inspect f w = f w w

-- a call that returns nothing
unfoldable pub act : {W : Type 0} → (W → W) → Exec W (Unit {0})
act f w = (ok tt, f w)

module _ {W A B : Type 0} where
  abbrev pub resume : Result A → (A → Exec W B) → (Error → Exec W B) → Exec W B
  resume (ok a) f g w = f a w
  resume (err e) f g w = g e w
  resume panics f g w = (panics, w)
  resume running f g w = (running, w)

  -- `a, err := m()`, then one continuation for each outcome. Opening this opens the actions above.
  unfoldable pub branch : Exec W A → (A → Exec W B) → (Error → Exec W B) → Exec W B
  unfolding pure raise panic out_of_fuel inspect of_result act
  branch m f g w = let (r, w') = m w in resume r f g w'

  infixl 10 ◌>>=◌ ◌>>◌
  -- `if err != nil { return err }`
  abbrev pub ◌>>=◌ : Exec W A → (A → Exec W B) → Exec W B
  m >>= f = branch m f raise

  abbrev pub ◌>>◌ : Exec W A → Exec W B → Exec W B
  m >> n = m >>= λ _. n

-- `a, ok := m[key]`, then one continuation for each outcome
abbrev pub if_found : {W A B : Type 0} → Option A → Exec W B → (A → Exec W B) → Exec W B
if_found none missing f = missing
if_found (some a) missing f = f a

-- fmt.Errorf("what name: %w", err) around the error of `m`
abbrev pub wrap : {W A : Type 0} → String → String → Exec W A → Exec W A
wrap what name m = branch m pure (λ failure. raise (wrapped what name failure))

-- `branch` on a call whose outcome is known
module _ {W A B : Type 0} (m : Exec W A) (f : A → Exec W B) (g : Error → Exec W B) (w : W) where
  pub branch-ok : {a : A} {w' : W} → m w ≡ (ok a, w') → branch m f g w ≡ f a w'
  unfolding branch
  branch-ok h = rw h

  pub branch-err : {e : Error} {w' : W} → m w ≡ (err e, w') → branch m f g w ≡ g e w'
  unfolding branch
  branch-err h = rw h
