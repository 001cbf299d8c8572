-- ===== src/Kubernetes/Cleanup.antt =====
-- The jobs that are left of the states that run as jobs.
use state_graph.Prelude.{◌⊎◌, inl, inr, String, ◌≡◌, ◌∙◌, refl, subst}
use state_graph.Values.{Status}
use state_graph.Exec.{Exec, pure, raise, branch, wrap}
use state_graph.Exec.Keeps.{Keeps, Keeps-act, Keeps-then}
use state_graph.Exec.Ends.{
  Ends-weaken, Ends, Ends-pure, Ends-raise, Ends-if, Ends-result, Ends-Keeps, Ends-branch,
  Ends-bind, Ends-inspect, Ends-act, Meets,
}
use state_graph.Kubernetes.{job_name}
use state_graph.Kubernetes.Jobs.{
  JobSpec, JobResult, K8sExecutor, create_job, wait_for_job, delete_job, delete_job_best_effort,
  report, job_has_failed, collect, handle,
}

-- Whether a job of a name is there, and if so, whether the last request to delete it failed, as it
-- does where its context is done.
pub data Presence : Type 0 where
  absent present undeleted : Presence

module _ {W : Type 0} (job : String → W → Presence) where
  abbrev pub Is : Presence → String → W → Type 0
  Is p name w = job name w ≡ p

  -- it is not there, or could not be deleted
  abbrev pub IsCleaned : Presence → Type 0
  IsCleaned p = (p ≡ absent) ⊎ (p ≡ undeleted)

  -- The cluster does what its API says: a job is there after it was created, and not after this
  -- failed; it stays until it is deleted. Nothing else touches it.
  pub record Documented (e : K8sExecutor W) (exec_id : String) : Type 0 where
    pub creates :
        (spec : JobSpec)
        → Ends
            (Is absent spec.name)
            (e.cluster.create_request spec)
            (Is present spec.name)
            (Is absent spec.name)
    pub deletes :
        (name : String)
        → Ends
            (Is present name)
            (e.cluster.delete_request name)
            (Is absent name)
            (Is undeleted name)
    pub watches : (name : String) → Keeps (job name) (e.cluster.watch_request name)
    pub streams :
        (name of_job id state : String) (w : W)
        → job name (e.cluster.stream_logs of_job id state w) ≡ job name w
    pub reads : (name state : String) → Keeps (job name) (e.store.get_state_output exec_id state)
    pub reports :
        (name state : String) (from to : Status) (msg : String) (w : W)
        → job name (e.telemetry exec_id state from to msg w) ≡ job name w
    pub notifies :
        (name state : String) (from to : Status) (msg : String) (w : W)
        → job name (e.notify exec_id state from to msg w) ≡ job name w

  module _ (e : K8sExecutor W) (exec_id : String) (doc : Documented e exec_id) (name : String) where
    Ends-wrap :
        {A : Type 0} {P Q E : W → Type 0} (what of_name : String) (m : Exec W A)
        → Ends P m Q E
        → Ends P (wrap what of_name m) Q E
    Ends-wrap what of_name m h =
        Ends-branch m _ _ h (λ a. Ends-pure a (λ w k. k)) (λ f. Ends-raise _ (λ w k. k))

    report-Keeps :
        (state : String) (from to : Status) (msg : String)
        → Keeps (job name) (report e exec_id state from to msg)
    report-Keeps state from to msg =
        Keeps-then (Keeps-act _ (doc.reports name state from to msg))
          (Keeps-act _ (doc.notifies name state from to msg))

    abbrev Cleaned : W → Type 0
    Cleaned w = IsCleaned (job name w)

    gone : Ends (Is present name) (delete_job_best_effort e.cluster name) Cleaned Cleaned
    unfolding delete_job_best_effort delete_job
    gone =
        Ends-branch {E = Is undeleted name} (delete_job e.cluster name) pure _
          (Ends-wrap "delete job" name _ (doc.deletes name)) (λ a. Ends-pure a (λ w h. inl h))
          (λ f. Ends-pure tt (λ w h. inr h))

    -- the job is deleted, and something that leaves it alone follows
    gone_then :
        {A : Type 0} (m : Exec W A)
        → Ends Cleaned m Cleaned Cleaned
        → Ends
            (Is present name)
            (branch (delete_job_best_effort e.cluster name) (λ _. m) raise)
            Cleaned
            Cleaned
    gone_then m h = Ends-bind _ _ gone (λ _. h)

    failed-cleans :
        (state message : String)
        → Ends (Is present name) (job_has_failed e exec_id state name message) Cleaned Cleaned
    unfolding job_has_failed
    failed-cleans state message = gone_then _ (
        Ends-bind _ _ (Ends-Keeps IsCleaned (report-Keeps state _ _ message))
          (λ _. Ends-raise _ (λ w h. h)))

    collect-cleans :
        (state : String) (result : JobResult)
        → Ends (Is present name) (collect e exec_id state name result) Cleaned Cleaned
    unfolding collect
    collect-cleans state result =
        Ends-bind _ _ (Ends-act _ (λ w h. doc.streams name name exec_id state w ∙ h)) λ _.
          Ends-if _ (failed-cleans state result.message) (
            Ends-branch _ _ _ (Ends-Keeps (λ p. p ≡ present) (doc.reads name state))
              (λ output. gone_then _ (
                Ends-bind _ _ (Ends-Keeps IsCleaned (report-Keeps state _ _ ""))
                  (λ _. Ends-pure output (λ w h. h))))
              (λ failure. gone_then _ (Ends-raise _ (λ w h. h))))

    create-there :
        (spec : JobSpec)
        → spec.name ≡ name
        → Ends (Is absent name) (create_job e.cluster spec) (Is present name) (Is absent name)
    unfolding create_job
    create-there spec same = Ends-if _ (Ends-raise _ (λ w h. h)) (
        Ends-bind _ _
          (Ends-wrap "create job" spec.name _ (
            subst
              (λ n. Ends (Is absent n) (e.cluster.create_request spec) (Is present n) (Is absent n))
              same (doc.creates spec)))
          (λ _. Ends-pure _ (λ w h. h)))

    wait-there :
        Ends (Is present name) (wait_for_job e.cluster name) (Is present name) (Is present name)
    unfolding wait_for_job
    wait-there =
        Ends-bind _ _
          (Ends-wrap "watch job" name _ (Ends-Keeps (λ p. p ≡ present) (doc.watches name)))
          (λ signals. Ends-result _)

  handle-Ends :
      (e : K8sExecutor W) (exec_id : String) (doc : Documented e exec_id) (state : String)
      → let name = job_name e.cluster.unicode exec_id state in
        Ends
          (Is absent name)
          (handle e exec_id state)
          (λ w. IsCleaned (job name w))
          (λ w. IsCleaned (job name w))
  unfolding handle
  handle-Ends e exec_id doc state =
      let name = job_name e.cluster.unicode exec_id state in
      Ends-bind _ _
        (Ends-weaken _ (λ w h. inl h)
          (Ends-wrap e exec_id doc name "generate token" state _
            (Ends-inspect _ (λ w. Ends-result _))))
        λ token.
          Ends-bind _ _
            (Ends-weaken _ (λ w h. inl h)
              (Ends-Keeps (λ p. p ≡ absent) (report-Keeps e exec_id doc name state _ _ "")))
            λ _.
              Ends-bind _ _
                (Ends-weaken _ (λ w h. inl h)
                  (Ends-wrap e exec_id doc name "create job" state _
                    (create-there e exec_id doc name _ refl)))
                λ _.
                  Ends-branch _ _ _ (wait-there e exec_id doc name)
                    (collect-cleans e exec_id doc name state)
                    (λ failure. gone_then e exec_id doc name _ (Ends-raise _ (λ w h. h)))

  -- The handler of a state that runs as a job, in a cluster that does what its API says, with no job of
  -- that name at its start, leaves none when it returns an output or an error, unless the request to
  -- delete the job failed.
  pub handle-cleans :
      (e : K8sExecutor W) (exec_id : String) (doc : Documented e exec_id) (state : String) (w : W)
      → job (job_name e.cluster.unicode exec_id state) w ≡ absent
      → let (r, w') = handle e exec_id state w in
        Meets r
          (IsCleaned (job (job_name e.cluster.unicode exec_id state) w'))
          (IsCleaned (job (job_name e.cluster.unicode exec_id state) w'))
  handle-cleans e exec_id doc state w none_yet = (handle-Ends e exec_id doc state).ends w none_yet
