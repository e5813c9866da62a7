-- ===== src/Chromesweep/Sweep/Passed.antt =====
-- A version is reported as passed only if its smoke Job was seen complete.
use gubal.Common.{true, ◌≡◌, some, ok, Bytes}
use gubal.Chromesweep.Report.{pass, SweepResult}
use gubal.Chromesweep.Objects.{Job}
use gubal.Chromesweep.Host.{Host, job, request, PollReturns}
use gubal.Chromesweep.Cluster.{job_verdict}
use gubal.Chromesweep.Sweep.{Pass}

module _ (h : Host) (returns : PollReturns h) (p : Pass) (job_name : Bytes) where
  -- the Job was read, in some world, with conditions that say that it is complete
  abbrev pub SeenComplete : Type 0
  SeenComplete =
      (x : h.World) × (j : Job) × ((h.get job request p.cfg.namespace job_name x).0 ≡ ok j)
      × (job_verdict j.conditions ≡ some true)

  abbrev Good : SweepResult → Type 0
  Good r = r.status ≡ pass → SeenComplete
