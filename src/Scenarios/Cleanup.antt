-- ===== src/Scenarios/Cleanup.antt =====
-- A cluster with room for one job, whose watch reports that the job has failed.
use state_graph.Prelude.{if◌then◌else◌, String, refl, ◌≡◌, Bool, true, false, none, [], ◌∷◌}
use state_graph.Values.{external, job_failed}
use state_graph.Exec.{Exec, ok, err, branch}
use state_graph.Exec.Ends.{Meets}
use state_graph.Store.{Store}
use state_graph.Callback.Token.{generate_state_token}
use state_graph.Kubernetes.{
  job_name, to_kebab, kebab_loop, squeeze, trim_right, cut, join, strip_hyphens,
}
use state_graph.Kubernetes.Jobs.{
  Cluster, K8sExecutor, failed_condition, job_changed, other_event, handle,
}
use state_graph.Kubernetes.Cleanup.{Presence, absent, present, IsCleaned, Documented, handle-cleans}
use state_graph.Scenarios.Callbacks.{toy, secret, ascii}

-- a call that is not made here
abbrev missing : {A : Type 0} → Exec Bool A
missing there = (err (external "unsupported"), there)

abbrev no_store : Store Bool
no_store = record {
  create_execution = λ r. missing;
  get_execution = λ id. missing;
  update_execution = λ id status. missing;
  list_executions = λ f. missing;
  write_ahead_state = λ r. missing;
  mark_running = λ id name. missing;
  complete_state = λ id name output. missing;
  fail_state = λ id name message. missing;
  get_state_output = λ id name. missing;
  list_states = λ id. missing;
  create_service = λ r. missing;
  get_service = λ name. missing;
  list_services = missing;
  update_service_status = λ name status ip. missing;
  delete_service = λ name. missing;
}

abbrev one_job : Cluster Bool
one_job = record {
  create_request = λ spec there. (ok tt, true);
  watch_request = λ name there.
      (ok (other_event ∷ job_changed (failed_condition true "OOMKilled" ∷ []) ∷ []), there);
  delete_request = λ name there. (ok tt, false);
  stream_logs = λ name id state there. there;
  unix_now = λ there. 7;
  crypto = toy;
  unicode = ascii;
}

abbrev cramped : K8sExecutor Bool
cramped = record {
  store = no_store;
  cluster = one_job;
  image = "kflow:1";
  runner_endpoint = "kflow:9090";
  runner_token_secret = secret;
  dispatcher = none;
  telemetry = λ id state from to message there. there;
  notify = λ id state from to message there. there;
  log_writer = λ id state line there. there;
}

abbrev is_there : String → Bool → Presence
is_there name there = if there then present else absent

cramped-Documented : Documented is_there cramped "e1"
cramped-Documented = record {
  creates = λ spec. record { ends = λ w h. refl };
  deletes = λ name. record { ends = λ w h. refl };
  watches = λ name. record { same = λ w. refl };
  streams = λ name job id state w. refl;
  reads = λ name state. record { same = λ w. refl };
  reports = λ name state from to message w. refl;
  notifies = λ name state from to message w. refl;
}

handle-cleans_example :
    let (r, there) = handle cramped "e1" "pay" false in
    Meets r
      (IsCleaned is_there (is_there (job_name ascii "e1" "pay") there))
      (IsCleaned is_there (is_there (job_name ascii "e1" "pay") there))
handle-cleans_example = handle-cleans is_there cramped "e1" cramped-Documented "pay" false refl

-- the run is that of the failed job, to its end
ran : handle cramped "e1" "pay" false ≡ (err (job_failed "pay" "OOMKilled"), false)
unfolding handle branch generate_state_token job_name to_kebab kebab_loop squeeze trim_right cut
    join strip_hyphens
ran = refl
