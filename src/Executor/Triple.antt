-- ===== src/Executor/Triple.antt =====
-- What an action does to the phase of the trace, one rule for each way to build an action.
use state_graph.Prelude.{String, ◌≡◌, refl, eq_refl, Bool, true, false, some, ◌∷◌, if◌then◌else◌}
use state_graph.Values.{Error}
use state_graph.Exec.{
  Result, ok, err, panics, running, Exec, pure, raise, act, resume, branch, ◌>>◌, out_of_fuel,
  inspect, of_result,
}
use state_graph.Executor.Trace.{
  Event, Trace, Phase, idle, written, started, working, gave_up, advance, phase_of, lifted,
  add_if_ok, noted, announced, on_world, failed_state,
}

-- A condition on a trace: a phase; a phase in the state of a name; between two states; or that the
-- protocol was kept.
pub data Cond : Type 0 where
  at : Phase → Cond
  in_state : String → Cond
  between safe : Cond

abbrev pub IsOf : String → Phase → Type 0
IsOf n idle = ⊥
IsOf n (written m) = m ≡ n
IsOf n (started m) = m ≡ n
IsOf n (working m) = m ≡ n
IsOf n (gave_up m) = m ≡ n

abbrev pub IsBetween : Phase → Type 0
IsBetween idle = Unit
IsBetween (gave_up _) = Unit
IsBetween _ = ⊥

abbrev pub Allows : Cond → Phase → Type 0
Allows (at q) p = p ≡ q
Allows (in_state n) p = IsOf n p
Allows between p = IsBetween p
Allows safe p = Unit

abbrev pub Holds : Cond → Trace → Type 0
Holds c t = (p : Phase) × (phase_of t ≡ some p) × Allows c p

abbrev pub Leads : Cond → Cond → Type 0
Leads c x = (p : Phase) → Allows c p → Allows x p

pub to_safe : (c : Cond) → Leads c safe
to_safe c p h = tt

weakened : (c x : Cond) (t : Trace) → Leads c x → Holds c t → Holds x t
weakened c x t l (p, e, h) = (p, e, l p h)

-- the condition after an outcome: `d` after success, `x` after an error
abbrev pub After {ℓ} : {A : Type ℓ} → Cond → Result A → Cond → Trace → Type 0
After x (ok _) d t = Holds d t
After x (err _) d t = Holds x t
After x _ d t = Holds safe t

pub After-safe :
    {A : Type 0} (r : Result A) (d : Cond) (t : Trace) → After safe r d t → Holds safe t
After-safe (ok a) d t h = weakened d safe t (to_safe _) h
After-safe (err e) d t h = h
After-safe panics d t h = h
After-safe running d t h = h

pub record Triple {W A : Type 0} (x c : Cond) (m : Exec (W × Trace) A) (d : Cond) : Type 0 where
  pub run : (s : W × Trace) → Holds c s.1 → After x (m s).0 d (m s).1.1

module _ {W A : Type 0} {x c : Cond} where
  pub Triple-pure : (a : A) → Triple {W = W} x c (pure a) c
  unfolding pure
  Triple-pure a = record { run = λ s h. h }

  pub Triple-raise : (e : Error) {d : Cond} → Leads c x → Triple {W = W} {A = A} x c (raise e) d
  unfolding raise
  Triple-raise e l = record { run = λ s h. weakened c x s.1 l h }

  pub Triple-fuel : {d : Cond} → Triple {W = W} {A = A} x c out_of_fuel d
  unfolding out_of_fuel
  Triple-fuel = record { run = λ s h. weakened c safe s.1 (to_safe _) h }

  pub Triple-if :
      (b : Bool) (m n : Exec (W × Trace) A) {d : Cond}
      → Triple x c m d
      → Triple x c n d
      → Triple x c (if b then m else n) d
  Triple-if true m n hm hn = hm
  Triple-if false m n hm hn = hn

  pub Triple-inspect :
      (f : W × Trace → Exec (W × Trace) A) {d : Cond}
      → ((s : W × Trace) → Triple x c (f s) d)
      → Triple x c (inspect f) d
  unfolding inspect
  Triple-inspect f h = record { run = λ s. (h s).run s }

  pub Triple-result : (r : Result A) → Leads c x → Triple {W = W} x c (of_result r) c
  unfolding of_result
  Triple-result (ok a) l = record { run = λ s h. h }
  Triple-result (err e) l = record { run = λ s h. weakened c x s.1 l h }
  Triple-result panics l = record { run = λ s h. weakened c safe s.1 (to_safe _) h }
  Triple-result running l = record { run = λ s h. weakened c safe s.1 (to_safe _) h }

  pub Triple-lifted : (m : Exec W A) → Leads c x → Triple x c (lifted m) c
  unfolding lifted
  Triple-lifted m l = record { run = λ s h. let (r, w') = m s.0 in outcome r s.1 h }
    where
      outcome : (r : Result A) (t : Trace) → Holds c t → After x r c t
      outcome (ok a) t h = h
      outcome (err e) t h = weakened c x t l h
      outcome panics t h = weakened c safe t (to_safe _) h
      outcome running t h = weakened c safe t (to_safe _) h

  -- a weaker condition after success
  pub Triple-weaken :
      {m : Exec (W × Trace) A} (d q : Cond) → Leads d q → Triple x c m d → Triple x c m q
  Triple-weaken {m} d q l hm = record { run = λ s h. outcome (m s).0 (m s).1.1 (hm.run s h) }
    where
      outcome : (r : Result A) (t : Trace) → After x r d t → After x r q t
      outcome (ok a) t h = weakened d q t l h
      outcome (err e) t h = h
      outcome panics t h = h
      outcome running t h = h

  -- a condition is met by phases
  pub Triple-phases :
      {m : Exec (W × Trace) A} {d : Cond}
      → ((p : Phase) → Allows c p → Triple x (at p) m d)
      → Triple x c m d
  Triple-phases each = record { run = λ s (p, e, h). (each p h).run s (p, e, refl) }

-- a condition that a phase meets
pub Triple-enter :
    {W A : Type 0} {x c d : Cond} {m : Exec (W × Trace) A} (p : Phase)
    → Allows c p
    → Triple x c m d
    → Triple x (at p) m d
Triple-enter p h hm = record { run = λ s (q, e, same). hm.run s (q, e, rw same h) }

pub Triple-act : {W : Type 0} {x c : Cond} (f : W → W) → Triple x c (act (on_world f)) c
unfolding act on_world
Triple-act f = record { run = λ s h. h }

module _ {W A B : Type 0} {y x c d q : Cond} where
  pub Triple-branch :
      (m : Exec (W × Trace) A) (f : A → Exec (W × Trace) B) (g : Error → Exec (W × Trace) B)
      → Triple y c m d
      → ((a : A) → Triple x d (f a) q)
      → ((e : Error) → Triple x y (g e) q)
      → Triple x c (branch m f g) q
  unfolding branch
  Triple-branch m f g hm hf hg = record {
    run = λ s h. let (r, s') = m s in outcome r s' (hm.run s h);
  }
    where
      outcome :
          (r : Result A) (s : W × Trace)
          → After y r d s.1
          → After x (resume r f g s).0 q (resume r f g s).1.1
      outcome (ok a) s h = (hf a).run s h
      outcome (err e) s h = (hg e).run s h
      outcome panics s h = h
      outcome running s h = h

module _ {W A B : Type 0} {x c d q : Cond} where
  pub Triple-then :
      {m : Exec (W × Trace) A} {k : Exec (W × Trace) B}
      → Triple x c m d
      → Triple x d k q
      → Triple x c (m >> k) q
  Triple-then {m} {k} hm hk =
      Triple-branch m (λ _. k) raise hm (λ _. hk) (λ e. Triple-raise e (λ p h. h))

failure_of : (p : Phase) (n : String) → IsOf n p → advance p (failed_state n) ≡ some (gave_up n)
failure_of idle n h = absurd h
failure_of (written m) n h = rw (h, eq_refl) refl
failure_of (started m) n h = rw (h, eq_refl) refl
failure_of (working m) n h = rw (h, eq_refl) refl
failure_of (gave_up m) n h = rw (h, eq_refl) refl

module _ {W A : Type 0} {x : Cond} where
  pub Triple-noted :
      (p q : Phase) (ev : Event) (m : Exec W A)
      → advance p ev ≡ some q
      → Allows x p
      → Triple x (at p) (noted ev m) (at q)
  unfolding noted phase_of
  Triple-noted p q ev m step l = record {
    run = λ s (p', e, same). let (r, w') = m s.0 in outcome r s.1 (rw (← same) e);
  }
    where
      outcome :
          (r : Result A) (t : Trace) → phase_of t ≡ some p → After x r (at q) (add_if_ok r ev t)
      outcome (ok a) t h = (q, rw h step, refl)
      outcome (err e) t h = (p, h, l)
      outcome panics t h = (p, h, tt)
      outcome running t h = (p, h, tt)

  pub Triple-announced :
      (p q : Phase) (ev : Event) (m : Exec W A)
      → advance p ev ≡ some q
      → Allows x q
      → Triple x (at p) (announced ev m) (at q)
  unfolding announced phase_of
  Triple-announced p q ev m step l = record {
    run = λ s (p', e, same).
        let here : phase_of s.1 ≡ some p = rw (← same) e in
        let (r, w') = m s.0 in outcome r (ev ∷ s.1) (rw here step);
  }
    where
      outcome : (r : Result A) (t : Trace) → phase_of t ≡ some q → After x r (at q) t
      outcome (ok a) t h = (q, h, refl)
      outcome (err e) t h = (q, h, l)
      outcome panics t h = (q, h, tt)
      outcome running t h = (q, h, tt)

  -- the failure of a state may be recorded at any point of it
  pub Triple-failed :
      (n : String) (m : Exec W A)
      → Leads (in_state n) x
      → Triple x (in_state n) (noted (failed_state n) m) (at (gave_up n))
  Triple-failed n m l =
      Triple-phases λ p h. Triple-noted p (gave_up n) (failed_state n) m (failure_of p n h) (l p h)

module _ {W A B : Type 0} {x : Cond} where
  -- an event that is recorded only on success, and what follows in each case
  pub Triple-try :
      (p q : Phase) (ev : Event) (m : Exec W A) (f : A → Exec (W × Trace) B)
      (g : Error → Exec (W × Trace) B) {d : Cond}
      → advance p ev ≡ some q
      → ((a : A) → Triple x (at q) (f a) d)
      → ((e : Error) → Triple x (at p) (g e) d)
      → Triple x (at p) (branch (noted ev m) f g) d
  Triple-try p q ev m f g {d} step hf hg =
      Triple-branch (noted ev m) f g (Triple-noted p q ev m step refl) hf hg
