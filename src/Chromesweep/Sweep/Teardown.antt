-- ===== src/Chromesweep/Sweep/Teardown.antt =====
-- What one version creates is deleted when its sweep ends, on every path.
use gubal.Common.{
  Bool, List, [], ◌++◌, ◌≡◌, refl, ap, ◌∙◌, append_assoc, Bytes, Result, ok, err, All, none, some,
  Option-cases, inl, inr,
}
use gubal.Common.Errors.{Error}
use gubal.Chromesweep.Report.{Status, SweepResult}
use gubal.Chromesweep.Retarget.{
  versioned_name, lockdown, retarget_deployment, retarget_service, retarget_network_policy,
  retarget_job,
}
use gubal.Chromesweep.Host.{
  Host, Kind, deployment, service, network_policy, job, pod, config_map, request, background, Call,
  created, updated, deleted, patched, State, M, pure, attempt, ◌>>=◌, ◌>>◌,
}
use gubal.Chromesweep.Host.Calls.{
  Adds, Adds-pure, Adds-raise, Adds-attempt, Adds-reads, Adds-in_context, Adds-bind,
}
use gubal.Chromesweep.Host.Returns.{bind_ok}
use gubal.Chromesweep.Cluster.{
  create_or_replace_deployment, create_or_replace_service, create_or_replace_network_policy,
  wait_deployment_ready, replace_job, wait_job, delete_version_resources,
}
use gubal.Chromesweep.Cluster.Replace.{
  create_or_replace-Adds, poll-Adds, teardown_calls, calls-delete_version_resources,
}
use gubal.Chromesweep.Cluster.Pods.{
  LogRead, pod_logs_by_selector, logs_of_newest, job_container_logs, deployment_pod_logs,
  copy_frame, newest_pod,
}
use gubal.Chromesweep.Sweep.{
  Pass, guarded, after_step, collect, captured, copied, set_frame, sweep_body, sweep_one,
}
use gubal.Chromesweep.Sweep.Results.{sweep_body-Returns}

-- the objects of one version
abbrev pub Owns : Bytes → Bytes → Kind → Bytes → Type 0
Owns name job_name deployment m = m ≡ name
Owns name job_name service m = m ≡ name
Owns name job_name network_policy m = m ≡ lockdown name
Owns name job_name job m = m ≡ job_name
Owns name job_name pod m = ⊥
Owns name job_name config_map m = ⊥

-- a call that creates or deletes one of them
abbrev pub OnVersion : Bytes → Bytes → Call → Type 0
OnVersion name job_name (created k m) = Owns name job_name k m
OnVersion name job_name (deleted k m) = Owns name job_name k m
OnVersion name job_name (updated k m) = ⊥
OnVersion name job_name (patched m) = ⊥

module _ (h : Host) (p : Pass) (tag name job_name : Bytes) where
  abbrev P : Call → Type 0
  P = OnVersion name job_name

  logs_of_newest-Adds :
      (selector container : Bytes) (o : _)
      → Adds P (logs_of_newest h p.cfg.namespace request selector container o)
  unfolding logs_of_newest
  logs_of_newest-Adds selector container none = Adds-raise P _
  logs_of_newest-Adds selector container (some pd) = Adds-reads P _

  logs-Adds :
      (selector container : Bytes)
      → Adds P (pod_logs_by_selector h p.cfg.namespace request selector container)
  unfolding pod_logs_by_selector
  logs-Adds selector container =
      Adds-bind P _ _
        (Adds-attempt P _ (
          Adds-bind P _ _ (Adds-reads P _)
            (λ pods. logs_of_newest-Adds selector container (newest_pod pods))))
        (λ r. Adds-pure P _)

  copy_frame-Adds :
      (remote local : Bytes) (c : Bytes)
      → Adds P (copy_frame h p.cfg.namespace request c remote local)
  unfolding copy_frame
  copy_frame-Adds remote local c =
      Adds-bind P _ _ (Adds-reads P _) (λ _. Adds-in_context P _ _ (Adds-reads P _))

  copied-Adds :
      (res : SweepResult) (local : Bytes) (c : Result Error Unit) → Adds P (copied h res local c)
  unfolding copied
  copied-Adds res local (ok _) = Adds-pure P _
  copied-Adds res local (err e) = Adds-pure P _

  captured-Adds : (res : SweepResult) (r : Result Bytes Bytes) → Adds P (captured h p tag res r)
  unfolding captured
  captured-Adds res (err e) = Adds-pure P _
  captured-Adds res (ok remote) =
      Adds-bind P _ _ (Adds-attempt P _ (copy_frame-Adds remote _ _)) (λ c. copied-Adds _ _ c)

  set_frame-Adds : (bully : LogRead) (res : SweepResult) → Adds P (set_frame h p tag bully res)
  unfolding set_frame
  set_frame-Adds bully res = elim (Option-cases bully.error) [
    | inl e ↦ rw e (captured-Adds res _)
    | inr (x, e) ↦ rw e (Adds-pure P res)
  ]

  collect-Adds : (res : SweepResult) (b : Bool) → Adds P (collect h p tag name job_name res b)
  unfolding collect job_container_logs deployment_pod_logs
  collect-Adds res b = Adds-bind P _ _ (logs-Adds _ _) (λ smoke.
      Adds-bind P _ _ (logs-Adds _ _) (λ bully.
        Adds-bind P _ _ (set_frame-Adds bully _)
          (λ res'. Adds-bind P _ _ (logs-Adds _ _) (λ browser. Adds-pure P _))))

  after_step-Adds :
      {A : Type 0} (status : Status) (res : SweepResult) (next : A → M h SweepResult)
      (r : Result Error A)
      → ((a : A) → Adds P (next a))
      → Adds P (after_step h status res next r)
  unfolding after_step
  after_step-Adds status res next (ok a) k = k a
  after_step-Adds status res next (err e) k = Adds-pure P _

  guarded-Adds :
      {A : Type 0} (status : Status) (res : SweepResult) (m : M h A) (next : A → M h SweepResult)
      → Adds P m
      → ((a : A) → Adds P (next a))
      → Adds P (guarded h status res m next)
  unfolding guarded
  guarded-Adds status res m next k l =
      Adds-bind P _ _ (Adds-attempt P m k) (λ r. after_step-Adds status res next r l)

  sweep_body-Adds : Adds P (sweep_body h p tag name job_name)
  unfolding sweep_body create_or_replace_deployment create_or_replace_service
      create_or_replace_network_policy replace_job wait_deployment_ready wait_job
      retarget_deployment retarget_service retarget_network_policy retarget_job
  sweep_body-Adds =
      guarded-Adds _ _ _ _
        (create_or_replace-Adds h p.cfg.namespace P deployment _ _ _ _ _ _ _ refl refl)
        (λ _.
          guarded-Adds _ _ _ _
            (create_or_replace-Adds h p.cfg.namespace P service _ _ _ _ _ _ _ refl refl)
            (λ _.
              guarded-Adds _ _ _ _
                (create_or_replace-Adds h p.cfg.namespace P network_policy _ _ _ _ _ _ _ refl refl)
                (λ _. guarded-Adds _ _ _ _ (poll-Adds h p.cfg.namespace P _ _ _ [] _) (λ _.
                  guarded-Adds _ _ _ _
                    (create_or_replace-Adds h p.cfg.namespace P job _ _ _ _ _ _ _ refl refl)
                    (λ _.
                      guarded-Adds _ _ _ _ (poll-Adds h p.cfg.namespace P _ _ _ [] _)
                        (λ b. collect-Adds _ b))))))

finish : (h : Host) → Pass → Bytes → Bytes → SweepResult → M h SweepResult
finish h p name job_name res = do
  attempt (delete_version_resources h p.cfg.namespace background name job_name)
  pure res

calls-finish :
    (h : Host) (p : Pass) (name job_name : Bytes) (res : SweepResult) (s : State h)
    → (finish h p name job_name res s).1.calls ≡ s.calls ++ teardown_calls name job_name
unfolding finish attempt pure ◌>>=◌
calls-finish h p name job_name res s =
    calls-delete_version_resources h p.cfg.namespace background name job_name s

sweep_one-finish :
    (h : Host) (p : Pass) (tag : Bytes)
    → let name = versioned_name p.browser.deployment tag in
      let job_name = versioned_name p.browser.job_name tag in
      sweep_one h p tag ≡ (sweep_body h p tag name job_name >>= finish h p name job_name)
unfolding sweep_one finish
sweep_one-finish h p tag = refl

-- The sweep of a version creates and deletes only the objects of that version, changes no others,
-- and its last calls delete all four, on every path and whatever each call returns.
pub sweep_one_teardown :
    (h : Host) (p : Pass) (tag : Bytes) (s : State h)
    → let name = versioned_name p.browser.deployment tag in
      let job_name = versioned_name p.browser.job_name tag in
      (cs : List Call) × ((sweep_one h p tag s).1.calls
        ≡ s.calls ++ (cs ++ teardown_calls name job_name))
      × All (OnVersion name job_name) cs
sweep_one_teardown h p tag s =
    let name = versioned_name p.browser.deployment tag in
    let job_name = versioned_name p.browser.job_name tag in
    let body = sweep_body h p tag name job_name in
    let (res, e, _) = (sweep_body-Returns h p tag name job_name).at s in
    let (cs, added, owned) = (sweep_body-Adds h p tag name job_name).at s in
    let whole : sweep_one h p tag s ≡ finish h p name job_name res (body s).1 =
      ap (λ m. m s) (sweep_one-finish h p tag) ∙ bind_ok body (finish h p name job_name) s e in
    (
      cs,
      ap (λ r. r.1.calls) whole
          ∙ calls-finish h p name job_name res (body s).1
          ∙ ap (λ l. l ++ teardown_calls name job_name) added
          ∙ append_assoc s.calls cs (teardown_calls name job_name),
      owned,
    )
