-- ===== src/Chromesweep/Sweep.antt =====
-- chromesweep/sweep.go: one version. The sweep of a policy and of a run are in Run.
pub mod Run
pub mod Teardown
pub mod Results
pub mod Grows
pub mod Restore
pub mod Passed
pub mod Pool
pub mod Complete
use gubal.Common.{
  ◌≡◌, refl, ℕ, ◌+◌, Bool, true, false, List, [], ◌∷◌, ◌++◌, Option, none, some, Bytes, bytes, ◌==◌,
  Result, ok, err, if◌then◌else◌, take,
}
use gubal.Common.Errors.{Error}
use gubal.Strings.{trim_prefix, last_index, base}
use gubal.Chromesweep.Logs.{reported_ua, captured_frame_path}
use gubal.Chromesweep.Report.{Status, pass, fail, not_ready, error, other, SweepResult, LogCapture}
use gubal.Chromesweep.Objects.{Deployment, Service, NetworkPolicy, Job}
use gubal.Chromesweep.Retarget.{
  versioned_name, retarget_deployment, retarget_service, retarget_network_policy, retarget_job,
}
use gubal.Chromesweep.Config.{Browser, Config}
use gubal.Chromesweep.Host.{Host, request, background, State, M, pure, raise, attempt, ◌>>=◌, ◌>>◌}
use gubal.Chromesweep.Cluster.{
  create_or_replace_deployment, create_or_replace_service, create_or_replace_network_policy,
  wait_deployment_ready, replace_job, wait_job, delete_version_resources,
}
use gubal.Chromesweep.Cluster.Pods.{LogRead, job_container_logs, deployment_pod_logs, copy_frame}

abbrev pub collector_pod_name : Bytes
collector_pod_name = bytes "chrome-sweep-collector"

pub record BaseManifests : Type 0 where
  pub deployment : Deployment
  pub service : Service
  pub netpol : NetworkPolicy
  pub job : Job

unfoldable pub local_frame_name : Bytes → Bytes → Bytes → Bytes
local_frame_name policy browser tag =
    if policy == []
    then browser ++ (bytes "-" ++ (tag ++ bytes ".png"))
    else policy ++ (bytes "-" ++ (browser ++ (bytes "-" ++ (tag ++ bytes ".png"))))

unfoldable pub version_from_frame : Bytes → Bytes
version_from_frame path =
    let name = trim_prefix (base path) (bytes "chrome-") in
    elim (last_index name b'-') [ none ↦ [] | some i ↦ take i name ]

version_of_bundle :
    version_from_frame (bytes "/data/chrome-150.0.7871.114-20260101T000000.000Z.png")
    ≡ bytes "150.0.7871.114"
unfolding version_from_frame trim_prefix base last_index
version_of_bundle = refl

-- a captured log that is not empty
unfoldable pub bundle_log : Bytes → Bytes → List LogCapture
bundle_log container content =
    if content == [] then [] else record { container = container; content = content } ∷ []

abbrev pub new_result : Bytes → Browser → Bytes → SweepResult
new_result policy b tag = record {
  policy = policy;
  browser = b.name;
  tag = tag;
  status = other [];
  browser_version = [];
  reported_ua = [];
  frame_path = [];
  detail = [];
  logs = [];
}

-- the verdict of the smoke Job
unfoldable pub set_verdict : Bool → SweepResult → SweepResult
set_verdict true res = record res { status = pass }
set_verdict false res = record res { status = fail; detail = bytes "smoke job failed" }

set_ua : LogRead → SweepResult → SweepResult
set_ua smoke res = elim smoke.error [
  | none ↦ record res { reported_ua = reported_ua smoke.text }
  | some e ↦ res
]

-- the arguments of sweepOne that are the same for every version of a pass
pub record Pass : Type 0 where
  pub cfg : Config
  pub browser : Browser
  pub base : BaseManifests
  pub frames_dir : Bytes
  pub policy : Bytes

module _ (h : Host) where
  copied : SweepResult → Bytes → Result Error Unit → M h SweepResult
  copied res local (ok _) = pure (record res { frame_path = local })
  copied res local (err e) = pure res

  captured : Pass → Bytes → SweepResult → Result Bytes Bytes → M h SweepResult
  unfolding copied
  captured p tag res (err e) = pure res
  captured p tag res (ok remote) = do
    let local = h.join_path p.frames_dir (local_frame_name p.policy p.browser.name tag)
    c ← attempt (copy_frame h p.cfg.namespace request collector_pod_name remote local)
    copied (record res { browser_version = version_from_frame remote }) local c

  -- what the log of chrome-bully gives: the version and the frame
  set_frame : Pass → Bytes → LogRead → SweepResult → M h SweepResult
  unfolding captured
  set_frame p tag bully res = elim bully.error [
    | some e ↦ pure res
    | none ↦ captured p tag res (captured_frame_path h.unmarshal_log bully.text)
  ]

  -- from the end of the Job to the return
  unfoldable pub collect : Pass → Bytes → Bytes → Bytes → SweepResult → Bool → M h SweepResult
  unfolding set_frame set_ua
  collect p tag name job_name res succeeded = do
    smoke ← job_container_logs h p.cfg.namespace request job_name (bytes "smoke")
    bully ← job_container_logs h p.cfg.namespace request job_name (bytes "chrome-bully")
    res' ← set_frame p tag bully (set_ua smoke res)
    browser ← deployment_pod_logs h p.cfg.namespace request name p.browser.container
    pure (
        set_verdict succeeded (record res' {
          logs =
              bundle_log p.browser.container browser.text
              ++ (bundle_log (bytes "chrome-bully") bully.text
                  ++ bundle_log (bytes "smoke") smoke.text);
        }))

  after_step :
      {A : Type 0} → Status → SweepResult → (A → M h SweepResult) → Result Error A → M h SweepResult
  after_step status res next (ok a) = next a
  after_step status res next (err e) = pure (record res { status = status; detail = e.text })

  -- `if err != nil { res.Status, res.Detail = status, err.Error(); return res }` behind a step
  unfoldable pub guarded :
      {A : Type 0} → Status → SweepResult → M h A → (A → M h SweepResult) → M h SweepResult
  unfolding after_step
  guarded status res m next = do r ← attempt m; after_step status res next r

  -- sweepOne but for what it defers
  unfoldable pub sweep_body : Pass → Bytes → Bytes → Bytes → M h SweepResult
  sweep_body p tag name job_name =
      let ns = p.cfg.namespace in
      let b = p.browser in
      let image = b.image_repo ++ (bytes ":" ++ tag) in
      let res = new_result p.policy b tag in
      let timeout = p.cfg.ready_timeout in
      guarded error res
        (create_or_replace_deployment h ns request
          (retarget_deployment p.base.deployment name b.container image) timeout)
        (λ _.
          guarded error res
            (create_or_replace_service h ns request (retarget_service p.base.service name) timeout)
            (λ _.
              guarded error res
                (create_or_replace_network_policy h ns request
                  (retarget_network_policy p.base.netpol name) timeout)
                (λ _. guarded not_ready res (wait_deployment_ready h ns request name timeout) (λ _.
                  guarded error res
                    (replace_job h ns request (retarget_job p.base.job job_name b.deployment name))
                    (λ _.
                      guarded error res (wait_job h ns request job_name p.cfg.job_timeout)
                        (collect p tag name job_name res))))))

  -- an error of the deferred teardown is only logged
  unfoldable pub sweep_one : Pass → Bytes → M h SweepResult
  sweep_one p tag = do
    let name = versioned_name p.browser.deployment tag
    let job_name = versioned_name p.browser.job_name tag
    res ← sweep_body p tag name job_name
    attempt (delete_version_resources h p.cfg.namespace background name job_name)
    pure res
