-- ===== src/Kubernetes/Rollout.antt =====
-- What the calls on deployments achieve in a cluster that does what its API says.
use state_graph.Prelude.{
  String, ℤ, ◌≡◌, refl, ap, ◌∙◌, ◌↔◌, ◌⊎◌, Bool, true, false, List, [], ◌∷◌, ◌++◌, Bool-cases, inl,
  inr,
}
use state_graph.Values.{Error}
use state_graph.Exec.{Result, ok, err, Exec, pure, raise, branch, resume}
use state_graph.Kubernetes.Manifests.{
  DeploymentSpec, Deployment, ClusterService, or_namespace, deployment_of, service_of,
}
use state_graph.Kubernetes.Deployments.{
  Workloads, RolloutSignal, context_done, channel_closed, available, other_event, at_least,
  follow_rollout, is_below_one, create_service, create_deployment, checked,
}

-- the outcome of a request that answers
abbrev pub Answered : {A : Type 0} → Result A → Type 0 → Type 0 → Type 0
Answered (ok _) P Q = P
Answered (err _) P Q = Q
Answered _ P Q = ⊥

both : {A : Type 0} (r : Result A) (P Q : Type 0) → Q → Answered r P Unit → Answered r (Q × P) Q
both (ok a) P Q q p = (q, p)
both (err e) P Q q p = q
both Result.panics P Q q p = absurd p
both Result.running P Q q p = absurd p

branch-Answered :
    {W A B : Type 0} (m : Exec W A) (f : A → Exec W B) (g : Error → Exec W B) (w : W)
    (P Q : W → Type 0) (R : Result B × W → Type 0)
    → Answered (m w).0 (P (m w).1) (Q (m w).1)
    → ((a : A) (w' : W) → P w' → R (f a w'))
    → ((e : Error) (w' : W) → Q w' → R (g e w'))
    → R (branch m f g w)
unfolding branch
branch-Answered {W} {A} m f g w P Q R h hf hg = outcome (m w).0 (m w).1 h
  where
    outcome : (r : Result A) (w' : W) → Answered r (P w') (Q w') → R (resume r f g w')
    outcome (ok a) w' h = hf a w' h
    outcome (err e) w' h = hg e w' h
    outcome Result.panics w' h = absurd h
    outcome Result.running w' h = absurd h

-- The requests answer; those that succeed do what they are for, and those that fail, nothing, but
-- that it is known which deployments could not be deleted.
pub record Documented {W : Type 0} (c : Workloads W) : Type 0 where
  pub has_deployment : String → String → W → Bool
  pub has_service : String → String → W → Bool
  pub undeleted : String → String → W → Bool
  pub creates :
      (ns : String) (d : Deployment) (w : W)
      → let (r, w') = c.create_deployment_request ns d w in
        Answered r
          (has_deployment ns d.name w' ≡ true)
          (has_deployment ns d.name w' ≡ has_deployment ns d.name w)
  pub serves :
      (ns : String) (s : ClusterService) (w : W)
      → let (r, w') = c.create_service_request ns s w in
        (has_deployment ns s.name w' ≡ has_deployment ns s.name w)
        × Answered r (has_service ns s.name w' ≡ true) Unit
  pub deletes :
      (in_background : Bool) (ns name : String) (w : W)
      → has_deployment ns name w ≡ true
      → let (r, w') = c.delete_deployment_request in_background ns name w in
        Answered r (has_deployment ns name w' ≡ false) (undeleted ns name w' ≡ true)

module _ {W : Type 0} (c : Workloads W) (doc : Documented c) where
  open doc use {has_deployment, has_service, undeleted, creates, serves, deletes}

  -- both are there, or after an error, the deployment is not, or it could not be deleted
  abbrev pub AllOrNothing : String → String → Result (Unit {0}) × W → Type 0
  AllOrNothing ns name out =
      Answered out.0 ((has_deployment ns name out.1 ≡ true) × (has_service ns name out.1 ≡ true))
        ((has_deployment ns name out.1 ≡ false) ⊎ (undeleted ns name out.1 ≡ true))

  create_service-AllOrNothing :
      (spec : DeploymentSpec) (ns : String) (w : W)
      → has_deployment ns spec.name w ≡ true
      → AllOrNothing ns spec.name (create_service c spec ns w)
  unfolding create_service pure raise
  create_service-AllOrNothing spec ns w there =
      let s = service_of spec ns in
      branch-Answered (c.create_service_request ns s) _ _ w
        (λ v. (has_deployment ns spec.name v ≡ true) × (has_service ns spec.name v ≡ true))
        (λ v. has_deployment ns spec.name v ≡ true) (AllOrNothing ns spec.name)
        (both _ _ _ ((serves ns s w).0 ∙ there) (serves ns s w).1) (λ _ v h. h)
        (λ e v h.
          branch-Answered (c.delete_deployment_request false ns spec.name) _ _ v
            (λ u. has_deployment ns spec.name u ≡ false) (λ u. undeleted ns spec.name u ≡ true)
            (AllOrNothing ns spec.name) (deletes false ns spec.name v h) (λ _ u gone. inl gone)
            (λ _ u left. inr left))

  -- CreateDeployment of a deployment that is not there, in a cluster that does what its API says,
  -- leaves both the deployment and its service after nil, and after an error no
  -- deployment, unless the request to delete it failed.
  pub create_deployment-AllOrNothing :
      (spec : DeploymentSpec) (w : W)
      → has_deployment (or_namespace spec.namespace c.namespace) spec.name w ≡ false
      → AllOrNothing
          (or_namespace spec.namespace c.namespace)
          spec.name
          (create_deployment c spec w)
  unfolding create_deployment raise pure
  create_deployment-AllOrNothing spec w absent =
      let ns = or_namespace spec.namespace c.namespace in
      let d = deployment_of spec ns in
      elim (Bool-cases (is_below_one spec.min_scale)) [
        | inl low ↦ rw low (inl absent)
        | inr high ↦ rw high (
            branch-Answered (checked c _ (c.create_deployment_request ns d)) _ _ w
              (λ v. has_deployment ns spec.name v ≡ true)
              (λ v. has_deployment ns spec.name v ≡ false) (AllOrNothing ns spec.name)
              (branch-Answered (c.create_deployment_request ns d) _ _ w
                (λ v. has_deployment ns spec.name v ≡ true)
                (λ v. has_deployment ns spec.name v ≡ has_deployment ns spec.name w)
                (λ out.
                  Answered out.0 (has_deployment ns spec.name out.1 ≡ true)
                    (has_deployment ns spec.name out.1 ≡ false))
                (creates ns d w) (λ _ v h. h) (λ e v h. h ∙ absent))
              (λ _ v h. create_service-AllOrNothing spec ns v h) (λ e v h. inl h))
      ]

-- no end of the watch among the signals, and no deployment with enough replicas
abbrev pub KeepsWaiting : ℤ → List RolloutSignal → Type 0
KeepsWaiting min_ready [] = Unit
KeepsWaiting min_ready (context_done e ∷ signals) = ⊥
KeepsWaiting min_ready (channel_closed ∷ signals) = ⊥
KeepsWaiting min_ready (available n ∷ signals) =
    (at_least n min_ready ≡ false) × KeepsWaiting min_ready signals
KeepsWaiting min_ready (other_event ∷ signals) = KeepsWaiting min_ready signals

-- a deployment with enough replicas comes before the watch ends
abbrev pub RollsOut : ℤ → List RolloutSignal → Type 0
RollsOut min_ready signals =
    (before : List RolloutSignal) × (n : ℤ) × (after : List RolloutSignal) × (signals
      ≡ before ++ available n ∷ after)
    × KeepsWaiting min_ready before
    × (at_least n min_ready ≡ true)

rolled_out :
    (name : String) (k : ℤ) (before : List RolloutSignal) (n : ℤ) (after : List RolloutSignal)
    → KeepsWaiting k before
    → at_least n k ≡ true
    → follow_rollout name k (before ++ available n ∷ after) ≡ ok tt
unfolding follow_rollout
rolled_out name k [] n after h enough = rw enough refl
rolled_out name k (context_done e ∷ before) n after h enough = absurd h
rolled_out name k (channel_closed ∷ before) n after h enough = absurd h
rolled_out name k (available m ∷ before) n after h enough =
    rw (h.0) (rolled_out name k before n after h.1 enough)
rolled_out name k (other_event ∷ before) n after h enough =
    rolled_out name k before n after h enough

later :
    (k : ℤ) (s : RolloutSignal) (signals : List RolloutSignal)
    → ((before : List RolloutSignal) → KeepsWaiting k before → KeepsWaiting k (s ∷ before))
    → RollsOut k signals
    → RollsOut k (s ∷ signals)
later k s signals h (before, n, after, e, waits, enough) =
    (s ∷ before, n, after, ap (λ l. s ∷ l) e, h before waits, enough)

waited :
    (name : String) (k : ℤ) (signals : List RolloutSignal)
    → follow_rollout name k signals ≡ ok tt
    → RollsOut k signals
unfolding follow_rollout
waited name k [] h = cc
waited name k (context_done e ∷ signals) h = cc
waited name k (channel_closed ∷ signals) h = cc
waited name k (available n ∷ signals) h = elim (Bool-cases (at_least n k)) [
  | inl enough ↦ ([], n, signals, refl, tt, enough)
  | inr few ↦
      later k (available n) signals (λ before w. (few, w)) (waited name k signals (rw few at h))
]
waited name k (other_event ∷ signals) h =
    later k other_event signals (λ before w. w) (waited name k signals h)

-- The wait for a rollout returns nil exactly if, among the signals of the watch, there is a deployment
-- with at least the replicas asked for, and neither ctx.Done() nor the end of the channel before it.
follow_rollout_iff :
    (name : String) (k : ℤ) (signals : List RolloutSignal)
    → (follow_rollout name k signals ≡ ok tt) ↔ RollsOut k signals
follow_rollout_iff name k signals = (
  waited name k signals,
  λ (before, n, after, e, waits, enough). rw e (rolled_out name k before n after waits enough),
)
