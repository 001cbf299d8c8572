-- ===== src/Exec/Returns.antt =====
-- Actions that return: with a result, an error or a panic, but within their fuel.
use state_graph.Prelude.{◌≡◌, refl, Bool, true, false, if◌then◌else◌}
use state_graph.Values.{Error}
use state_graph.Exec.{
  Result, ok, err, panics, running, Exec, pure, raise, panic, of_result, branch, resume, ◌>>◌,
}

abbrev pub IsDone : {A : Type 0} → Result A → Type 0
IsDone running = ⊥
IsDone _ = Unit

pub record Returns {W A : Type 0} (m : Exec W A) : Type 0 where
  pub done : (w : W) → IsDone (m w).0

module _ {W A : Type 0} where
  pub Returns-pure : (a : A) → Returns {W = W} (pure a)
  unfolding pure
  Returns-pure a = record { done = λ w. tt }

  pub Returns-raise : (e : Error) → Returns {W = W} {A = A} (raise e)
  unfolding raise
  Returns-raise e = record { done = λ w. tt }

  pub Returns-panic : Returns {W = W} {A = A} panic
  unfolding panic
  Returns-panic = record { done = λ w. tt }

  pub Returns-result : (r : Result A) → IsDone r → Returns {W = W} (of_result r)
  unfolding of_result
  Returns-result r h = record { done = λ w. h }

  pub Returns-if :
      (b : Bool) {m n : Exec W A} → Returns m → Returns n → Returns (if b then m else n)
  Returns-if true hm hn = hm
  Returns-if false hm hn = hn

  -- each branch may use what the test says
  pub Returns-test :
      (b : Bool) {m n : Exec W A}
      → (b ≡ true → Returns m)
      → (b ≡ false → Returns n)
      → Returns (if b then m else n)
  Returns-test true hm hn = hm refl
  Returns-test false hm hn = hn refl

-- what an action can return
pub record Yields {W A : Type 0} (m : Exec W A) (a : A) : Type 0 where
  pub before : W
  pub yields : (m before).0 ≡ ok a

pub Yields-result :
    {W A : Type 0} {r : Result A} {a : A} → Yields {W = W} (of_result r) a → r ≡ ok a
unfolding of_result
Yields-result h = h.yields

module _ {W A B : Type 0} where
  pub Returns-branch :
      (m : Exec W A) (f : A → Exec W B) (g : Error → Exec W B)
      → Returns m
      → ((a : A) → Yields m a → Returns (f a))
      → ((e : Error) → Returns (g e))
      → Returns (branch m f g)
  unfolding branch
  Returns-branch m f g hm hf hg = record {
    done =
        λ w. outcome (m w).0 (m w).1 (hm.done w) (λ a e. hf a (record { before = w; yields = e }));
  }
    where
      outcome :
          (r : Result A) (w : W)
          → IsDone r
          → ((a : A) → r ≡ ok a → Returns (f a))
          → IsDone (resume r f g w).0
      outcome (ok a) w d h = (h a refl).done w
      outcome (err e) w d h = (hg e).done w
      outcome panics w d h = tt
      outcome running w d h = d

  pub Returns-then : {m : Exec W A} {n : Exec W B} → Returns m → Returns n → Returns (m >> n)
  Returns-then {m} {n} hm hn = Returns-branch m (λ _. n) raise hm (λ _ _. hn) (λ e. Returns-raise e)
