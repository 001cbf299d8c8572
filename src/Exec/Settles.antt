-- ===== src/Exec/Settles.antt =====
-- Actions that end with a result that has a property, or with an error, and those that never end in
-- an error.
use state_graph.Prelude.{String, ◌≡◌, refl}
use state_graph.Values.{Error}
use state_graph.Exec.{
  Result, ok, err, panics, running, Exec, pure, raise, of_result, branch, resume, wrap,
}

abbrev pub IsSettled : {A : Type 0} → (A → Type 0) → Result A → Type 0
IsSettled P (ok a) = P a
IsSettled P (err _) = Unit
IsSettled P _ = ⊥

abbrev pub Any : {A : Type 0} → A → Type 0
Any _ = Unit

pub record Settles {W A : Type 0} (P : A → Type 0) (m : Exec W A) : Type 0 where
  pub settled : (w : W) → IsSettled P (m w).0

pub record Succeeds {W A : Type 0} (m : Exec W A) : Type 0 where
  pub succeeds : (w : W) → (a : A) × (w' : W) × (m w ≡ (ok a, w'))

pub Succeeds-pure : {W A : Type 0} (a : A) → Succeeds {W = W} (pure a)
unfolding pure
Succeeds-pure a = record { succeeds = λ w. (a, w, refl) }

module _ {W A : Type 0} {P : A → Type 0} where
  pub Settles-raise : (e : Error) → Settles {W = W} P (raise e)
  unfolding raise
  Settles-raise e = record { settled = λ w. tt }

  pub Settles-pure : (a : A) → P a → Settles {W = W} P (pure a)
  unfolding pure
  Settles-pure a h = record { settled = λ w. h }

  pub Settles-result : (r : Result A) → IsSettled P r → Settles {W = W} P (of_result r)
  unfolding of_result
  Settles-result r h = record { settled = λ w. h }

module _ {W A B : Type 0} {P : A → Type 0} (m : Exec W A) (f : A → Exec W B) (g : Error → Exec W B)
    (hm : Settles P m) where
  pub Settles-branch :
      {Q : B → Type 0}
      → ((a : A) → P a → Settles Q (f a))
      → ((e : Error) → Settles Q (g e))
      → Settles Q (branch m f g)
  unfolding branch
  Settles-branch {Q} hf hg = record { settled = λ w. outcome (m w).0 (m w).1 (hm.settled w) }
    where
      outcome : (r : Result A) (w : W) → IsSettled P r → IsSettled Q (resume r f g w).0
      outcome (ok a) w h = (hf a h).settled w
      outcome (err e) w h = (hg e).settled w
      outcome panics w h = absurd h
      outcome running w h = absurd h

  -- an error that is dealt with
  pub Succeeds-branch :
      ((a : A) → P a → Succeeds (f a)) → ((e : Error) → Succeeds (g e)) → Succeeds (branch m f g)
  unfolding branch
  Succeeds-branch hf hg = record { succeeds = λ w. outcome (m w).0 (m w).1 (hm.settled w) }
    where
      outcome :
          (r : Result A) (w : W)
          → IsSettled P r
          → (b : B) × (w' : W) × (resume r f g w ≡ (ok b, w'))
      outcome (ok a) w h = (hf a h).succeeds w
      outcome (err e) w h = (hg e).succeeds w
      outcome panics w h = absurd h
      outcome running w h = absurd h

pub Settles-wrap :
    {W A : Type 0} {P : A → Type 0} (what name : String) (m : Exec W A)
    → Settles P m
    → Settles P (wrap what name m)
Settles-wrap what name m h = Settles-branch m _ _ h Settles-pure (λ e. Settles-raise _)
