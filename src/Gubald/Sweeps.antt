-- ===== src/Gubald/Sweeps.antt =====
-- cmd/gubald/svc/smoketest/smoketest.go: executeSweep, runSweep, uploadBundle and the goroutine of
-- SubmitSmokeTest.
pub mod Effects
pub mod Complete
use gubal.Common.{
  Bool, List, [], ◌∷◌, ◌++◌, Option, none, some, Bytes, bytes, ◌==◌, Result, ok, err,
}
use gubal.Common.Int.{ℤ}
use gubal.Common.Errors.{Error, wrap}
use gubal.Strings.{itoa}
use gubal.Chromesweep.Versions.{VersionsError, duplicate, none_given}
use gubal.Chromesweep.Policies.{StringMap, policies_from_map}
use gubal.Chromesweep.Config.{Browser, Config, default_config}
use gubal.Chromesweep.Report.{Report, SweepResult, all_passed}
use gubal.Chromesweep.Report.Markdown.{render_markdown}
use gubal.Chromesweep.Bundle.{BundleIo, write_bundle}
use gubal.Chromesweep.Sweep.Run.{run}
use gubal.Gubald.Comments.{body_ack, body_result, body_run_error}
use gubal.Gubald.Service.{
  SmokeTestRequest, SubmitRequest, BrowsersError, bad_versions, no_versions, browsers_for,
  TwirpError, invalid_argument, internal, SmokeTestResult, report_to_result, version_count,
}
use gubal.Gubald.Session.{
  Env, Effect, made_dir, removed_dir, posted, uploaded, Ran, G, pure, raise, attempt, swept,
  on_world, emit, ◌>>=◌, ◌>>◌,
}

versions_text : VersionsError → Bytes
versions_text none_given = bytes "no versions given"
versions_text (duplicate t) = bytes "duplicate version \"" ++ (t ++ bytes "\"")

unfoldable pub browsers_text : BrowsersError → Bytes
unfolding versions_text
browsers_text (bad_versions e) = versions_text e
browsers_text no_versions = bytes "no versions given"

-- the object of a run's bundle, in tigris.go
unfoldable pub bundle_key : ℤ → Bytes → Bytes
bundle_key pr id = bytes "pr-" ++ (itoa pr ++ (bytes "/" ++ (id ++ bytes ".zip")))

-- the configuration of a request's sweep
abbrev pub sweep_config : SmokeTestRequest → List Browser → Config
sweep_config req browsers = record default_config {
  anubis_image = req.anubis_image;
  browsers = browsers;
  policies = policies_from_map req.policies;
}

module _ (env : Env) where
  -- a step whose error is returned as an internal one
  abbrev or_internal : {A : Type 0} → Result Error A → G env A
  or_internal (ok a) = pure a
  or_internal (err e) = raise (internal e)

  configured : Result Error Unit × env.host.World → Result Error Unit × env.host.World
  configured (ok _, w) = env.new_for_config w
  configured (err e, w) = (err e, w)

  in_cluster : Result Error Unit × env.host.World → Result Error Unit × env.host.World
  unfolding configured
  in_cluster (ok _, w) = env.new_for_config w
  in_cluster (err e, w) = configured (env.ambient_config w)

  unfoldable pub load_clientset : env.host.World → Result Error Unit × env.host.World
  unfolding in_cluster
  load_clientset w = in_cluster (env.in_cluster_config w)

  abbrev in_client : Result Error Unit → Result Error Unit
  in_client (ok _) = ok tt
  in_client (err e) = err (wrap (bytes "building kube client") e)

  make_dir : G env Bytes
  make_dir = do
    r ← on_world (env.mkdir_temp (bytes "smoketest-frames-"))
    dir ← or_internal r
    emit (made_dir dir)
    pure dir

  remove_dir : Bytes → G env Unit
  remove_dir dir = do on_world (λ w. (tt, env.remove_all dir w)); emit (removed_dir dir)

  -- after Run: its error removes the directory
  kept : Bytes → Result Error Report → G env (Report × Bytes)
  unfolding remove_dir
  kept dir (ok rep) = pure (rep, dir)
  kept dir (err e) = do remove_dir dir; raise (internal e)

  execute_browsers : SmokeTestRequest → Result BrowsersError (List Browser) → G env (Report × Bytes)
  unfolding make_dir kept
  execute_browsers req (err e) = raise (invalid_argument (browsers_text e))
  execute_browsers req (ok browsers) = do
    c ← on_world load_clientset
    or_internal (in_client c)
    dir ← make_dir
    r ← swept (run env.host (sweep_config req browsers) dir)
    kept dir r

  unfoldable pub execute_sweep : SmokeTestRequest → G env (Report × Bytes)
  unfolding execute_browsers
  execute_sweep req = execute_browsers req (browsers_for req)

  -- SmokeTest once it has the place of the semaphore
  unfoldable pub run_sweep : SmokeTestRequest → G env SmokeTestResult
  unfolding remove_dir
  run_sweep req = do (rep, dir) ← execute_sweep req; remove_dir dir; pure (report_to_result rep)

  uploaded_url : Result Error Bytes → G env Bytes
  uploaded_url (ok url) = pure url
  uploaded_url (err e) = pure []

  upload_file : ℤ → Bytes → Result Error Bytes → G env Bytes
  unfolding uploaded_url
  upload_file pr id (err e) = pure []
  upload_file pr id (ok content) = do
    emit (uploaded (bundle_key pr id))
    r ← on_world (env.upload (bundle_key pr id) content)
    uploaded_url r

  written : Bytes → ℤ → Bytes → Option Error → G env Bytes
  unfolding upload_file
  written path pr id (some e) = pure []
  written path pr id none = do r ← on_world (env.host.read_file path); upload_file pr id r

  upload_json : Report → Bytes → Bytes → ℤ → Bytes → Result Error Bytes → G env Bytes
  unfolding written
  upload_json rep dir md pr id (err e) = pure []
  upload_json rep dir md pr id (ok js) = do
    let path = env.host.join_path dir (bytes "report.zip")
    io ← on_world (env.bundle_io path)
    written path pr id (write_bundle io js md rep.results).error

  -- the link to the bundle, "" where a step fails
  unfoldable pub upload_bundle : Report → Bytes → Bytes → ℤ → Bytes → G env Bytes
  unfolding upload_json
  upload_bundle rep dir md pr id = upload_json rep dir md pr id (env.render_json rep)

  -- a comment on the pull request, whose error is only logged
  post : SubmitRequest → Bytes → G env Unit
  post req body = do on_world (env.comment req.repo req.pr body); emit (posted req.repo req.pr body)

  closed : SubmitRequest → Result TwirpError (Report × Bytes) → G env Unit
  unfolding post remove_dir
  closed req (err e) = post req (body_run_error req.sha (env.error_text e))
  closed req (ok (rep, dir)) = do
    let md = render_markdown rep
    url ← upload_bundle rep dir md req.pr req.test.id
    post req (body_result (all_passed rep) md req.sha url)
    remove_dir dir

  -- the goroutine of SubmitSmokeTest, which holds the place of the semaphore until its end
  unfoldable pub background : SubmitRequest → G env Unit
  unfolding post closed
  background req = do
    post req (body_ack req.sha (version_count req.test))
    r ← attempt (execute_sweep req.test)
    closed req r
