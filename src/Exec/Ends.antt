-- ===== src/Exec/Ends.antt =====
-- Actions with a condition before, one after success and one after an error. A panic, and a run that
-- is cut off, meet none.
use state_graph.Prelude.{sym, subst, Bool, true, false, if◌then◌else◌}
use state_graph.Values.{Error}
use state_graph.Exec.{
  Result, ok, err, panics, running, Exec, pure, raise, of_result, act, inspect, branch, resume,
}
use state_graph.Exec.Keeps.{Keeps}

abbrev pub Meets : {A : Type 0} → Result A → Type 0 → Type 0 → Type 0
Meets (ok _) Q E = Q
Meets (err _) Q E = E
Meets _ Q E = Unit

pub record Ends {W A : Type 0} (P : W → Type 0) (m : Exec W A) (Q E : W → Type 0) : Type 0 where
  pub ends : (w : W) → P w → Meets (m w).0 (Q (m w).1) (E (m w).1)

module _ {W A : Type 0} {P Q E : W → Type 0} where
  pub Ends-pure : (a : A) → ((w : W) → P w → Q w) → Ends P (pure a) Q E
  unfolding pure
  Ends-pure a h = record { ends = h }

  pub Ends-raise : (e : Error) → ((w : W) → P w → E w) → Ends {A = A} P (raise e) Q E
  unfolding raise
  Ends-raise e h = record { ends = h }

  pub Ends-if :
      (b : Bool) {m n : Exec W A} → Ends P m Q E → Ends P n Q E → Ends P (if b then m else n) Q E
  Ends-if true hm hn = hm
  Ends-if false hm hn = hn

  pub Ends-inspect : (f : W → Exec W A) → ((w : W) → Ends P (f w) Q E) → Ends P (inspect f) Q E
  unfolding inspect
  Ends-inspect f h = record { ends = λ w. (h w).ends w }

module _ {W A : Type 0} {P : W → Type 0} where
  pub Ends-result : (r : Result A) → Ends P (of_result r) P P
  unfolding of_result
  Ends-result (ok a) = record { ends = λ w h. h }
  Ends-result (err e) = record { ends = λ w h. h }
  Ends-result panics = record { ends = λ w h. tt }
  Ends-result running = record { ends = λ w h. tt }

pub Ends-act :
    {W : Type 0} {P Q E : W → Type 0} (f : W → W) → ((w : W) → P w → Q (f w)) → Ends P (act f) Q E
unfolding act
Ends-act f h = record { ends = h }

-- what keeps a part of the world keeps what is said of it
pub Ends-Keeps :
    {W A V : Type 0} {part : W → V} {m : Exec W A} (P : V → Type 0)
    → Keeps part m
    → Ends (λ w. P (part w)) m (λ w. P (part w)) (λ w. P (part w))
Ends-Keeps {W} {A} {V} {part} {m} P k = record {
  ends = λ w h. met (m w).0 (subst P (sym (k.same w)) h);
}
  where
    met : (r : Result A) {w' : W} → P (part w') → Meets r (P (part w')) (P (part w'))
    met (ok a) h = h
    met (err e) h = h
    met panics h = tt
    met running h = tt

module _ {W A B : Type 0} {P Q E R F : W → Type 0} where
  pub Ends-branch :
      (m : Exec W A) (f : A → Exec W B) (g : Error → Exec W B)
      → Ends P m Q E
      → ((a : A) → Ends Q (f a) R F)
      → ((e : Error) → Ends E (g e) R F)
      → Ends P (branch m f g) R F
  unfolding branch
  Ends-branch m f g hm hf hg = record { ends = λ w h. outcome (m w).0 (m w).1 (hm.ends w h) }
    where
      outcome :
          (r : Result A) (w : W)
          → Meets r (Q w) (E w)
          → Meets (resume r f g w).0 (R (resume r f g w).1) (F (resume r f g w).1)
      outcome (ok a) w h = (hf a).ends w h
      outcome (err e) w h = (hg e).ends w h
      outcome panics w h = tt
      outcome running w h = tt

module _ {W A B : Type 0} {P Q R F : W → Type 0} where
  -- `do`: an error of the first action is that of both
  pub Ends-bind :
      (m : Exec W A) (f : A → Exec W B)
      → Ends P m Q F
      → ((a : A) → Ends Q (f a) R F)
      → Ends P (branch m f raise) R F
  Ends-bind m f hm hf = Ends-branch m f raise hm hf (λ e. Ends-raise e (λ w h. h))

-- a weaker condition after an error
pub Ends-weaken :
    {W A : Type 0} {P Q E F : W → Type 0} (m : Exec W A)
    → ((w : W) → E w → F w)
    → Ends P m Q E
    → Ends P m Q F
Ends-weaken {W} {A} {P} {Q} {E} {F} m l hm = record {
  ends = λ w h. met (m w).0 (m w).1 (hm.ends w h);
}
  where
    met : (r : Result A) (w : W) → Meets r (Q w) (E w) → Meets r (Q w) (F w)
    met (ok a) w h = h
    met (err e) w h = l w h
    met panics w h = tt
    met running w h = tt
