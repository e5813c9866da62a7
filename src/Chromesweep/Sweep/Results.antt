-- ===== src/Chromesweep/Sweep/Results.antt =====
-- A run has one result for each policy, browser and version, in that order, whatever fails.
use gubal.Common.{
  Bool, true, false, List, [], ◌∷◌, ◌++◌, ◌≡◌, refl, ap, ◌∙◌, arith, Option-cases, inl, inr, Result,
  ok, err, Bytes, map,
}
use mathlib.Core.List.{map-append}
use mathlib.Core.Path.{ap₂}
use gubal.Common.Errors.{Error}
use gubal.Chromesweep.Policies.{Policy}
use gubal.Chromesweep.Report.{Status, SweepResult}
use gubal.Chromesweep.Config.{Browser, Config}
use gubal.Chromesweep.Host.{Host, request, M, attempt}
use gubal.Chromesweep.Host.Returns.{Returns, Returns-pure, Returns-bind, Returns-attempt}
use gubal.Chromesweep.Cluster.Pods.{
  LogRead, job_container_logs, deployment_pod_logs, pod_logs_by_selector,
}
use gubal.Chromesweep.Sweep.{
  BaseManifests, Pass, new_result, guarded, after_step, collect, captured, copied, set_frame,
  set_ua, set_verdict, sweep_body, sweep_one,
}
use gubal.Chromesweep.Sweep.Run.{
  errored, policy_error_results, sweep_versions, sweep_browser, sweep_browsers, swept, sweep_policy,
  sweep_policies,
}

-- what a result is about
abbrev pub Ident : Type 0
Ident = Bytes × Bytes × Bytes

abbrev pub ident : SweepResult → Ident
ident r = (r.policy, r.browser, r.tag)

abbrev pub idents : List SweepResult → List Ident
idents = map ident

-- the versions of some browsers under a policy
unfoldable pub browser_matrix : Bytes → List Browser → List Ident
browser_matrix policy [] = []
browser_matrix policy (b ∷ browsers) =
    map (λ tag. (policy, b.name, tag)) b.versions ++ browser_matrix policy browsers

unfoldable pub matrix : List Browser → List Policy → List Ident
unfolding browser_matrix
matrix browsers [] = []
matrix browsers (p ∷ ps) = browser_matrix p.name browsers ++ matrix browsers ps

module _ (h : Host) where
  abbrev About : Ident → SweepResult → Type 0
  About i r = ident r ≡ i

  logs-Returns :
      (ns selector container : Bytes)
      → Returns (λ _. Unit {0}) (pod_logs_by_selector h ns request selector container)
  unfolding pod_logs_by_selector
  logs-Returns ns selector container =
      Returns-bind _ _ _ (Returns-attempt _) (λ r _. Returns-pure _ _ tt)

  after_step-Returns :
      {A : Type 0} (i : Ident) (status : Status) (res : SweepResult) (next : A → M h SweepResult)
      (r : Result Error A)
      → About i res
      → ((a : A) → Returns (About i) (next a))
      → Returns (About i) (after_step h status res next r)
  unfolding after_step
  after_step-Returns i status res next (ok a) q k = k a
  after_step-Returns i status res next (err e) q k = Returns-pure (About i) _ q

  guarded-Returns :
      {A : Type 0} (i : Ident) (status : Status) (res : SweepResult) (m : M h A)
      (next : A → M h SweepResult)
      → About i res
      → ((a : A) → Returns (About i) (next a))
      → Returns (About i) (guarded h status res m next)
  unfolding guarded
  guarded-Returns i status res m next q k =
      Returns-bind (About i) (attempt m) (after_step h status res next) (Returns-attempt m)
        (λ r _. after_step-Returns i status res next r q k)

  copied-Returns :
      (i : Ident) (res : SweepResult) (local : Bytes) (c : Result Error Unit)
      → About i res
      → Returns (About i) (copied h res local c)
  unfolding copied
  copied-Returns i res local (ok _) q = Returns-pure (About i) _ q
  copied-Returns i res local (err e) q = Returns-pure (About i) _ q

  captured-Returns :
      (p : Pass) (tag : Bytes) (i : Ident) (res : SweepResult) (r : Result Bytes Bytes)
      → About i res
      → Returns (About i) (captured h p tag res r)
  unfolding captured
  captured-Returns p tag i res (err e) q = Returns-pure (About i) res q
  captured-Returns p tag i res (ok remote) q =
      Returns-bind (About i) _ _ (Returns-attempt _) (λ c _. copied-Returns i _ _ c q)

  set_frame-Returns :
      (p : Pass) (tag : Bytes) (i : Ident) (bully : LogRead) (res : SweepResult)
      → About i res
      → Returns (About i) (set_frame h p tag bully res)
  unfolding set_frame
  set_frame-Returns p tag i bully res q = elim (Option-cases bully.error) [
    | inl e ↦ rw e (captured-Returns p tag i res _ q)
    | inr (x, e) ↦ rw e (Returns-pure (About i) res q)
  ]

  set_ua-About :
      (i : Ident) (smoke : LogRead) (res : SweepResult) → About i res → About i (set_ua smoke res)
  unfolding set_ua
  set_ua-About i smoke res q = ground arith

  set_verdict-About :
      (i : Ident) (b : Bool) (res : SweepResult) → About i res → About i (set_verdict b res)
  unfolding set_verdict
  set_verdict-About i true res q = q
  set_verdict-About i false res q = q

  collect-Returns :
      (p : Pass) (tag name job_name : Bytes) (i : Ident) (res : SweepResult) (b : Bool)
      → About i res
      → Returns (About i) (collect h p tag name job_name res b)
  unfolding collect job_container_logs deployment_pod_logs
  collect-Returns p tag name job_name i res b q =
      Returns-bind (About i) _ _ (logs-Returns _ _ _) (λ smoke _.
        Returns-bind (About i) _ _ (logs-Returns _ _ _) (λ bully _.
          Returns-bind (About i) _ _
            (set_frame-Returns p tag i bully _ (set_ua-About i smoke res q))
            (λ res' q'.
              Returns-bind (About i) _ _ (logs-Returns _ _ _)
                (λ browser _. Returns-pure (About i) _ (set_verdict-About i b _ q')))))

  pub sweep_body-Returns :
      (p : Pass) (tag name job_name : Bytes)
      → Returns (About (p.policy, p.browser.name, tag)) (sweep_body h p tag name job_name)
  unfolding sweep_body
  sweep_body-Returns p tag name job_name =
      let i : Ident = (p.policy, p.browser.name, tag) in
      let res = new_result p.policy p.browser tag in
      guarded-Returns i _ res _ _ refl (λ _. guarded-Returns i _ res _ _ refl (λ _.
        guarded-Returns i _ res _ _ refl (λ _. guarded-Returns i _ res _ _ refl (λ _.
          guarded-Returns i _ res _ _ refl (λ _.
            guarded-Returns i _ res _ _ refl
              (λ b. collect-Returns p tag name job_name i res b refl))))))

  pub sweep_one-Returns :
      (p : Pass) (tag : Bytes) → Returns (About (p.policy, p.browser.name, tag)) (sweep_one h p tag)
  unfolding sweep_one
  sweep_one-Returns p tag =
      Returns-bind _ _ _ (sweep_body-Returns p tag _ _)
        (λ r q. Returns-bind _ _ _ (Returns-attempt _) (λ _ _. Returns-pure _ r q))

  abbrev Lists : List Ident → List SweepResult → Type 0
  Lists is rs = idents rs ≡ is

  sweep_versions-Returns :
      (p : Pass) (tags : List Bytes)
      → Returns
          (Lists (map (λ tag. (p.policy, p.browser.name, tag)) tags))
          (sweep_versions h p tags)
  unfolding sweep_versions
  sweep_versions-Returns p [] = Returns-pure _ [] refl
  sweep_versions-Returns p (tag ∷ tags) = Returns-bind _ _ _ (sweep_one-Returns p tag) (λ r q.
      Returns-bind _ _ _ (sweep_versions-Returns p tags)
        (λ rs qs. Returns-pure _ (r ∷ rs) (ap₂ (λ x xs. x ∷ xs) q qs)))

  abbrev browser_idents : Bytes → Browser → List Ident
  browser_idents policy b = map (λ tag. (policy, b.name, tag)) b.versions

  errored-idents :
      (policy : Bytes) (b : Browser) (detail : Bytes) (tags : List Bytes)
      → idents (map (errored policy b detail) tags) ≡ map (λ tag. (policy, b.name, tag)) tags
  errored-idents policy b detail [] = refl
  errored-idents policy b detail (t ∷ tags) =
      ap (λ r. (policy, b.name, t) ∷ r) (errored-idents policy b detail tags)

  sweep_browser-Returns :
      (cfg : Config) (frames_dir policy : Bytes) (b : Browser) (base : Result Error BaseManifests)
      → Returns (Lists (browser_idents policy b)) (sweep_browser h cfg frames_dir policy b base)
  unfolding sweep_browser
  sweep_browser-Returns cfg frames_dir policy b (err e) =
      Returns-pure _ _ (errored-idents policy b e.text b.versions)
  sweep_browser-Returns cfg frames_dir policy b (ok base) = sweep_versions-Returns _ b.versions

  joins :
      (is js : List Ident) (rs qs : List SweepResult)
      → Lists is rs
      → Lists js qs
      → Lists (is ++ js) (rs ++ qs)
  joins is js rs qs e f = map-append ident rs qs ∙ ap₂ (λ x y. x ++ y) e f

  sweep_browsers-Returns :
      (cfg : Config) (frames_dir policy : Bytes) (browsers : List Browser)
      → Returns
          (Lists (browser_matrix policy browsers))
          (sweep_browsers h cfg frames_dir policy browsers)
  unfolding sweep_browsers browser_matrix
  sweep_browsers-Returns cfg frames_dir policy [] = Returns-pure _ [] refl
  sweep_browsers-Returns cfg frames_dir policy (b ∷ browsers) =
      Returns-bind _ _ _ (Returns-attempt _) (λ base _.
        Returns-bind _ _ _ (sweep_browser-Returns cfg frames_dir policy b base) (λ rs q.
          Returns-bind _ _ _ (sweep_browsers-Returns cfg frames_dir policy browsers)
            (λ rest q'. Returns-pure _ _ (joins _ _ rs rest q q'))))

  error_results-idents :
      (browsers : List Browser) (policy detail : Bytes)
      → idents (policy_error_results browsers policy detail) ≡ browser_matrix policy browsers
  unfolding policy_error_results browser_matrix
  error_results-idents [] policy detail = refl
  error_results-idents (b ∷ browsers) policy detail =
      joins _ _ (map (errored policy b detail) b.versions)
        (policy_error_results browsers policy detail) (errored-idents policy b detail b.versions)
        (error_results-idents browsers policy detail)

  swept-Returns :
      (cfg : Config) (frames_dir : Bytes) (pol : Policy) (r : Result Error Unit)
      → Returns (Lists (browser_matrix pol.name cfg.browsers)) (swept h cfg frames_dir pol r)
  unfolding swept
  swept-Returns cfg frames_dir pol (ok _) =
      sweep_browsers-Returns cfg frames_dir pol.name cfg.browsers
  swept-Returns cfg frames_dir pol (err e) =
      Returns-pure _ _ (error_results-idents cfg.browsers pol.name e.text)

  -- The sweep of the policies always returns, and its results are one for each policy, browser and
  -- version, in the order of the configuration, whatever fails on the way.
  pub sweep_policies_complete :
      (cfg : Config) (name frames_dir : Bytes) (policies : List Policy)
      → Returns
          (λ rs. idents rs ≡ matrix cfg.browsers policies)
          (sweep_policies h cfg name frames_dir policies)
  unfolding sweep_policies sweep_policy matrix
  sweep_policies_complete cfg name frames_dir [] = Returns-pure _ [] refl
  sweep_policies_complete cfg name frames_dir (pol ∷ pols) =
      Returns-bind _ _ _
        (Returns-bind _ _ _ (Returns-attempt _) (λ r _. swept-Returns cfg frames_dir pol r))
        (λ rs q.
          Returns-bind _ _ _ (sweep_policies_complete cfg name frames_dir pols)
            (λ rest q'. Returns-pure _ _ (joins _ _ rs rest q q')))
