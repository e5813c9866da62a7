-- ===== src/Chromesweep/Sweep/Run.antt =====
-- chromesweep/sweep.go: the manifests, the sweep of one policy, the policies of a run and what
-- brackets it. The goroutines of sweepBrowsers are run one after another, each to its end; which of
-- them may run at once is in Pool.
use gubal.Common.{
  Bool, List, [], ◌∷◌, ◌++◌, none, map, Bytes, bytes, ◌==◌, Result, ok, err, if◌then◌else◌,
}
use gubal.Common.Errors.{Error, wrap}
use gubal.Chromesweep.Report.{error, Report, SweepResult}
use gubal.Chromesweep.Policies.{Policy, config_map_name}
use gubal.Chromesweep.Objects.{Container, PodTemplate, ConfigMap}
use gubal.Chromesweep.Config.{Browser, Config}
use gubal.Chromesweep.Host.{
  Host, Kind, deployment, service, network_policy, job, Object, request, background, M, pure, raise,
  attempt, reads, ◌>>=◌, ◌>>◌, in_context,
}
use gubal.Chromesweep.Cluster.{pin, wait_deployment_ready}
use gubal.Chromesweep.Cluster.Anubis.{
  anubis_policy_file_name, set_image, create_or_replace_config_map, snapshot_pod_template,
  restore_pod_template, set_anubis_policy,
}
use gubal.Chromesweep.Cluster.Pods.{ensure_collector, delete_collector}
use gubal.Chromesweep.Sweep.{BaseManifests, Pass, new_result, collector_pod_name, sweep_one}

-- an errored result for one version
abbrev pub errored : Bytes → Browser → Bytes → Bytes → SweepResult
errored policy b detail tag = record (new_result policy b tag) { status = error; detail = detail }

-- policyErrorResults
unfoldable pub policy_error_results : List Browser → Bytes → Bytes → List SweepResult
policy_error_results [] policy detail = []
policy_error_results (b ∷ browsers) policy detail =
    map (errored policy b detail) b.versions ++ policy_error_results browsers policy detail

-- the image of the last container with a name, or ""
unfoldable pub manifest_image : Bytes → Bytes → List Container → Bytes
manifest_image container image [] = image
manifest_image container image (ct ∷ cts) =
    manifest_image container (if ct.name == container then ct.image else image) cts

-- the policies of the passes: one without a name where none is given
unfoldable pub passes : List Policy → List Policy
passes [] = record { name = []; content = [] } ∷ []
passes (p ∷ ps) = p ∷ ps

module _ (h : Host) where
  unfoldable pub decoded : (k : Kind) → Bytes → Bytes → Result Error (Object k) → M h (Object k)
  decoded k path ns (ok o) = pure (pin k ns o)
  decoded k path ns (err e) = raise (wrap (bytes "decoding " ++ path) e)

  -- loadDeployment, loadService, loadNetworkPolicy and loadJob
  unfoldable pub load_manifest : (k : Kind) → Bytes → Bytes → M h (Object k)
  unfolding decoded
  load_manifest k path ns = do
    raw ← reads (h.read_file path)
    decoded k path ns (h.unmarshal_yaml k raw)

  unfoldable pub load_base_manifests : Browser → Bytes → M h BaseManifests
  load_base_manifests b ns = do
    d ← load_manifest deployment b.deployment_manifest ns
    s ← load_manifest service b.service_manifest ns
    n ← load_manifest network_policy b.network_policy_manifest ns
    j ← load_manifest job b.job_manifest ns
    pure (record { deployment = d; service = s; netpol = n; job = j })

  unfoldable pub sweep_versions : Pass → List Bytes → M h (List SweepResult)
  sweep_versions p [] = pure []
  sweep_versions p (tag ∷ tags) = do
    r ← sweep_one h p tag
    rs ← sweep_versions p tags
    pure (r ∷ rs)

  -- the round of one browser
  unfoldable pub sweep_browser :
      Config → Bytes → Bytes → Browser → Result Error BaseManifests → M h (List SweepResult)
  sweep_browser cfg frames_dir policy b (err e) = pure (map (errored policy b e.text) b.versions)
  sweep_browser cfg frames_dir policy b (ok base) =
      sweep_versions
        (record { cfg = cfg; browser = b; base = base; frames_dir = frames_dir; policy = policy })
        b.versions

  unfoldable pub sweep_browsers : Config → Bytes → Bytes → List Browser → M h (List SweepResult)
  sweep_browsers cfg frames_dir policy [] = pure []
  sweep_browsers cfg frames_dir policy (b ∷ browsers) = do
    base ← attempt (load_base_manifests b cfg.namespace)
    rs ← sweep_browser cfg frames_dir policy b base
    rest ← sweep_browsers cfg frames_dir policy browsers
    pure (rs ++ rest)

  unfoldable pub apply_policy : Config → Bytes → Policy → M h Unit
  apply_policy cfg name pol = do
    let cm_name = config_map_name pol.name
    let cm : ConfigMap = record {
      meta = record {
        name = cm_name;
        namespace = cfg.namespace;
        labels = none;
        resource_version = [];
      };
      content = (anubis_policy_file_name, pol.content) ∷ [];
    }
    in_context (bytes "policy configmap") (create_or_replace_config_map h cfg.namespace request cm)
    in_context (bytes "wiring policy into anubis")
        (set_anubis_policy h cfg.namespace request name cfg.anubis_container cm_name)
    in_context (bytes "anubis rollout for policy " ++ pol.name)
        (wait_deployment_ready h cfg.namespace request name cfg.ready_timeout)
    pure tt

  -- the results of a policy that was, or could not be, applied
  unfoldable pub swept : Config → Bytes → Policy → Result Error Unit → M h (List SweepResult)
  swept cfg frames_dir pol (ok _) = sweep_browsers cfg frames_dir pol.name cfg.browsers
  swept cfg frames_dir pol (err e) = pure (policy_error_results cfg.browsers pol.name e.text)

  unfoldable pub sweep_policy : Config → Bytes → Bytes → Policy → M h (List SweepResult)
  unfolding swept
  sweep_policy cfg name frames_dir pol = do
    r ← attempt (if pol.name == [] then pure tt else apply_policy cfg name pol)
    swept cfg frames_dir pol r

  unfoldable pub sweep_policies : Config → Bytes → Bytes → List Policy → M h (List SweepResult)
  sweep_policies cfg name frames_dir [] = pure []
  sweep_policies cfg name frames_dir (pol ∷ pols) = do
    rs ← sweep_policy cfg name frames_dir pol
    rest ← sweep_policies cfg name frames_dir pols
    pure (rs ++ rest)

  -- the closure `restore` of prepareAnubis; its errors are only logged
  unfoldable pub restore_anubis : Config → Bytes → PodTemplate → M h Unit
  restore_anubis cfg name snapshot = do
    attempt (do
      restore_pod_template h cfg.namespace background name snapshot
      wait_deployment_ready h cfg.namespace background name cfg.ready_timeout)
    pure tt

  pub record Prepared : Type 0 where
    pub image : Bytes
    pub deployment : Bytes
    pub snapshot : PodTemplate

  -- re-imaging Anubis for the run; a failure restores it before it is returned
  unfoldable pub reimaged : Config → Bytes → PodTemplate → Result Error Bool → M h Unit
  reimaged cfg name snapshot (ok _) = pure tt
  reimaged cfg name snapshot (err e) = do restore_anubis cfg name snapshot; raise e

  unfoldable pub reimage : Config → Bytes → PodTemplate → M h Unit
  unfolding reimaged
  reimage cfg name snapshot = do
    r ← attempt (do
      in_context (bytes "setting anubis image")
          (set_image h cfg.namespace request name cfg.anubis_container cfg.anubis_image)
      in_context (bytes "anubis rollout")
          (wait_deployment_ready h cfg.namespace request name cfg.ready_timeout))
    reimaged cfg name snapshot r

  unfoldable pub prepare_anubis : Config → M h Prepared
  unfolding reimage
  prepare_anubis cfg = do
    dep ←
        in_context (bytes "loading anubis manifest")
          (load_manifest deployment cfg.anubis_manifest cfg.namespace)
    let name = dep.meta.name
    let image = manifest_image cfg.anubis_container [] dep.template.containers
    snapshot ←
        in_context (bytes "snapshotting anubis")
          (snapshot_pod_template h cfg.namespace request name)
    if cfg.anubis_image == []
        then pure (record { image = image; deployment = name; snapshot = snapshot })
        else (do
          reimage cfg name snapshot
          pure (record { image = cfg.anubis_image; deployment = name; snapshot = snapshot }))

  -- the run behind EnsureCollector, and the deferred DeleteCollector, whose error is only logged
  unfoldable pub with_collector : Config → Bytes → Prepared → M h Report
  with_collector cfg frames_dir p = do
    rs ← sweep_policies cfg p.deployment frames_dir (passes cfg.policies)
    attempt (delete_collector h cfg.namespace background collector_pod_name)
    pure (record { anubis_image = p.image; results = rs })

  -- what Run returns, after the deferred calls
  unfoldable pub returned : Result Error Report → M h Report
  returned (ok rep) = pure rep
  returned (err e) = raise e

  -- Run from the successful return of prepareAnubis
  unfoldable pub run_prepared : Config → Bytes → Prepared → M h Report
  unfolding with_collector returned
  run_prepared cfg frames_dir p = do
    r ← attempt (do
      ensure_collector h cfg.namespace request collector_pod_name cfg.collector_pvc
          cfg.ready_timeout
      with_collector cfg frames_dir p)
    restore_anubis cfg p.deployment p.snapshot
    returned r

  unfoldable pub run : Config → Bytes → M h Report
  run cfg frames_dir = do p ← prepare_anubis cfg; run_prepared cfg frames_dir p
