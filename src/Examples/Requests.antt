-- ===== src/Examples/Requests.antt =====
-- The theorems on the runs of requests and on the clients of the server.
use gubal.Gubald.Sweeps.{load_clientset}
use gubal.Chromesweep.Sweep.Run.{
  apply_policy, restore_anubis, run_prepared, sweep_policies, sweep_policy,
}
use gubal.Chromesweep.Cluster.Pods.{ensure_collector}
use gubal.Chromesweep.Cluster.Anubis.{create_or_replace_config_map, set_anubis_policy, wire_policy}
use gubal.Chromesweep.Cluster.{update}
use gubal.Gubald.Service.{parse_ints}
use gubal.Chromesweep.Versions.{parse_versions}
use gubal.Chromesweep.Sweep.Run.{run, prepare_anubis, load_manifest}
use gubal.Chromesweep.Host.{◌>>=◌, in_context, reads, pure, attempt, writes, raise}
use gubal.Chromesweep.Cluster.Anubis.{snapshot_pod_template, set_image}
use gubal.Chromesweep.Cluster.{get}
use gubal.Chromesweep.Sweep.{collect, guarded, sweep_body, sweep_one, set_verdict}
use gubal.Chromesweep.Cluster.{
  ready_condition, delete, create, create_or_replace, job_condition, poll_until, job_verdict,
  rolled_out, wait_job, wait_deployment_ready, delete_version_resources, replace_job,
  create_or_replace_deployment, create_or_replace_service, create_or_replace_network_policy,
}
use gubal.Chromesweep.Cluster.Pods.{job_container_logs, deployment_pod_logs, pod_logs_by_selector}
use gubal.Chromesweep.Logs.{captured_frame_path, verdict}
use gubal.Strings.{scan_lines}
use gubal.Common.{List, [], ◌∷◌, ◌≡◌, ◌≢◌, ◌↔◌, refl, Bytes, bytes, ok, ◌==◌}
use gubal.Common.Int.{pos}
use gubal.Strings.{itoa}
use gubal.Chromesweep.Config.{Browser, chrome_browser}
use gubal.Chromesweep.Policies.{policies_from_map}
use gubal.Chromesweep.Sweep.Results.{idents, matrix}
use gubal.Chromesweep.Sweep.Run.{passes}
use gubal.Chromesweep.Report.{Report}
use gubal.Gubald.Service.{SubmitRequest, SmokeTestRequest, browsers_for}
use gubal.Gubald.Service.Browsers.{asked, DistinctInts, browsers_for_ok}
use gubal.Gubald.Session.Emits.{Emits}
use gubal.Gubald.Sweeps.{execute_sweep, run_sweep}
use gubal.Gubald.Sweeps.Effects.{Balanced, run_sweep-Balanced}
use gubal.Gubald.Sweeps.Complete.{execute_sweep_complete}
use gubal.Gubald.Clients.{split_repo}
use gubal.Gubald.Clients.Repos.{IsRepo, split_repo_iff}
use gubal.Gubald.Clients.Bundles.{bundle_key_injective}
use gubal.Examples.Hosts.{ready_env, start_state}

abbrev one_version : SmokeTestRequest
one_version = record {
  id = bytes "1";
  anubis_image = bytes "anubis:edge";
  chrome_versions = pos 75 ∷ [];
  firefox_versions = [];
  policies = record { keys = bytes "strict" ∷ []; get = λ k. k };
}

abbrev pull : SubmitRequest
pull = record { repo = bytes "TecharoHQ/anubis"; pr = pos 7; sha = bytes "abc"; test = one_version }

run_sweep-Balanced_example : Emits (λ _ es. Balanced ready_env es) (run_sweep ready_env one_version)
run_sweep-Balanced_example = run_sweep-Balanced ready_env one_version

browsers_for_ok_example :
    (browsers_for one_version ≡ ok (record chrome_browser { versions = bytes "75" ∷ [] } ∷ [])) ↔ (
      (record chrome_browser { versions = bytes "75" ∷ [] } ∷ [] ≡ asked one_version)
      × (record chrome_browser { versions = bytes "75" ∷ [] } ∷ [] ≢ [])
      × DistinctInts one_version.chrome_versions
      × DistinctInts one_version.firefox_versions)
browsers_for_ok_example =
    browsers_for_ok one_version (record chrome_browser { versions = bytes "75" ∷ [] } ∷ [])

split_repo_iff_example :
    (split_repo (λ s. s) (bytes "TecharoHQ/anubis") ≡ ok (bytes "TecharoHQ", bytes "anubis"))
    ↔ IsRepo (bytes "TecharoHQ/anubis") (bytes "TecharoHQ", bytes "anubis")
split_repo_iff_example =
    split_repo_iff (λ s. s) (bytes "TecharoHQ/anubis") (bytes "TecharoHQ") (bytes "anubis")

bundle_key_injective_example : (pos 7 ≡ pos 7) × (bytes "1" ≡ bytes "1")
bundle_key_injective_example = bundle_key_injective (pos 7) (pos 7) (bytes "1") (bytes "1") refl

swept_75 : (p : Report × Bytes) × ((execute_sweep ready_env one_version start_state).result ≡ ok p)
unfolding execute_sweep browsers_for parse_ints parse_versions ◌==◌ itoa run ◌>>=◌ prepare_anubis
    in_context load_manifest reads pure snapshot_pod_template get attempt set_image writes sweep_one
    sweep_body guarded collect create_or_replace create delete wait_deployment_ready poll_until
    ready_condition rolled_out wait_job job_condition job_verdict job_container_logs
    deployment_pod_logs pod_logs_by_selector set_verdict create_or_replace_deployment
    create_or_replace_service create_or_replace_network_policy replace_job delete_version_resources
    raise captured_frame_path scan_lines verdict run_prepared restore_anubis ensure_collector
    sweep_policies passes policies_from_map sweep_policy apply_policy create_or_replace_config_map
    update set_anubis_policy wire_policy load_clientset
swept_75 = (_, refl)

execute_sweep_complete_example :
    (bs : List Browser) × (browsers_for one_version ≡ ok bs)
    × (idents swept_75.0.0.results ≡ matrix bs (passes (policies_from_map one_version.policies)))
execute_sweep_complete_example = execute_sweep_complete ready_env one_version start_state swept_75.1
