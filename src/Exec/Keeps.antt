-- ===== src/Exec/Keeps.antt =====
-- Actions that keep a part of the world as it is.
use state_graph.Prelude.{◌≡◌, refl, ◌∙◌, Bool, true, false, if◌then◌else◌}
use state_graph.Values.{Error}
use state_graph.Exec.{
  Result, ok, err, panics, running, Exec, pure, raise, out_of_fuel, of_result, act, inspect, branch,
  resume, ◌>>◌,
}

-- `part w` is what is kept
pub record Keeps {W A P : Type 0} (part : W → P) (m : Exec W A) : Type 0 where
  pub same : (w : W) → part (m w).1 ≡ part w

module _ {W A P : Type 0} {part : W → P} where
  pub Keeps-pure : (a : A) → Keeps part (pure a)
  unfolding pure
  Keeps-pure a = record { same = λ w. refl }

  pub Keeps-raise : (e : Error) → Keeps {A = A} part (raise e)
  unfolding raise
  Keeps-raise e = record { same = λ w. refl }

  pub Keeps-fuel : Keeps {A = A} part out_of_fuel
  unfolding out_of_fuel
  Keeps-fuel = record { same = λ w. refl }

  pub Keeps-result : (r : Result A) → Keeps part (of_result r)
  unfolding of_result
  Keeps-result r = record { same = λ w. refl }

  pub Keeps-inspect : (f : W → Exec W A) → ((w : W) → Keeps part (f w)) → Keeps part (inspect f)
  unfolding inspect
  Keeps-inspect f h = record { same = λ w. (h w).same w }

  pub Keeps-if :
      (b : Bool) {m n : Exec W A} → Keeps part m → Keeps part n → Keeps part (if b then m else n)
  Keeps-if true hm hn = hm
  Keeps-if false hm hn = hn

pub Keeps-act :
    {W P : Type 0} {part : W → P} (f : W → W) → ((w : W) → part (f w) ≡ part w) → Keeps part (act f)
unfolding act
Keeps-act f h = record { same = h }

module _ {W A B P : Type 0} {part : W → P} where
  pub Keeps-branch :
      (m : Exec W A) (f : A → Exec W B) (g : Error → Exec W B)
      → Keeps part m
      → ((a : A) → Keeps part (f a))
      → ((e : Error) → Keeps part (g e))
      → Keeps part (branch m f g)
  unfolding branch
  Keeps-branch m f g hm hf hg = record { same = λ w. outcome (m w).0 (m w).1 ∙ hm.same w }
    where
      outcome : (r : Result A) (w : W) → part (resume r f g w).1 ≡ part w
      outcome (ok a) w = (hf a).same w
      outcome (err e) w = (hg e).same w
      outcome panics w = refl
      outcome running w = refl

  pub Keeps-then : {m : Exec W A} {n : Exec W B} → Keeps part m → Keeps part n → Keeps part (m >> n)
  Keeps-then {m} {n} hm hn = Keeps-branch m (λ _. n) raise hm (λ _. hn) (λ e. Keeps-raise e)
