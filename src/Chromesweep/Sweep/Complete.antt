-- ===== src/Chromesweep/Sweep/Complete.antt =====
-- What the report of a run is about.
use gubal.Common.{◌≡◌, Bytes, Result, ok, err}
use gubal.Common.Errors.{Error}
use gubal.Chromesweep.Report.{Report}
use gubal.Chromesweep.Config.{Config}
use gubal.Chromesweep.Host.{Host}
use gubal.Chromesweep.Host.Returns.{
  Gives, Gives-pure, Gives-raise, Gives-bind, Gives-any, IfOk, Gives-attempt, Gives-of_Returns,
}
use gubal.Chromesweep.Sweep.Results.{idents, matrix, sweep_policies_complete}
use gubal.Chromesweep.Sweep.Run.{Prepared, passes, with_collector, returned, run_prepared, run}

module _ (h : Host) (cfg : Config) (frames_dir : Bytes) where
  abbrev Complete : Report → Type 0
  Complete rep = idents rep.results ≡ matrix cfg.browsers (passes cfg.policies)

  with_collector-Gives : (p : Prepared h) → Gives Complete (with_collector h cfg frames_dir p)
  unfolding with_collector
  with_collector-Gives p =
      Gives-bind _ _ _
        (Gives-of_Returns _ _
          (sweep_policies_complete h cfg p.deployment frames_dir (passes cfg.policies)))
        (λ rs q. Gives-bind _ _ _ (Gives-any _) (λ _ _. Gives-pure _ _ q))

  returned-Gives : (r : Result Error Report) → IfOk Complete r → Gives Complete (returned h r)
  unfolding returned
  returned-Gives (ok rep) q = Gives-pure _ rep q
  returned-Gives (err e) q = Gives-raise _ e

  run_prepared-Gives : (p : Prepared h) → Gives Complete (run_prepared h cfg frames_dir p)
  unfolding run_prepared
  run_prepared-Gives p =
      Gives-bind _ _ _
        (Gives-attempt _ _ (Gives-bind _ _ _ (Gives-any _) (λ _ _. with_collector-Gives p)))
        (λ r q. Gives-bind _ _ _ (Gives-any _) (λ _ _. returned-Gives r q))

  -- The report of a run that returns one has one result for each policy, browser and version, in the
  -- order of the configuration; without a policy there is one pass, under no policy's name.
  pub run-Complete : Gives Complete (run h cfg frames_dir)
  unfolding run
  run-Complete = Gives-bind _ _ _ (Gives-any _) (λ p _. run_prepared-Gives p)
