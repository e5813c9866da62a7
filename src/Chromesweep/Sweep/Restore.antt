-- ===== src/Chromesweep/Sweep/Restore.antt =====
-- The Anubis Deployment is restored at the end of a run.
mod Paths
use gubal.Chromesweep.Host.{Object}
use gubal.Chromesweep.Host.{continue}
use gubal.Chromesweep.Sweep.{collector_pod_name}
use gubal.Common.{Bool, [], ◌∷◌, All, append-nil, append_assoc, sym, ◌∙◌, ◌==◌, Bool-cases}
use gubal.Chromesweep.Report.{Report}
use gubal.Chromesweep.Config.{Config}
use gubal.Chromesweep.Host.{Host, M, pure, raise, attempt, in_context, ◌>>◌}
use gubal.Chromesweep.Host.Returns.{Returns, Returns-pure, Returns-bind, Returns-attempt}
use gubal.Chromesweep.Cluster.{get}
use gubal.Chromesweep.Cluster.Pods.{ensure_collector}
use gubal.Chromesweep.Sweep.Run.{returned, with_collector, reimage, reimaged, decoded}
use gubal.Chromesweep.Sweep.Grows.{
  Grows, ensure_collector-Grows, with_collector-Grows, set_image-Grows,
}
use gubal.Chromesweep.Host.Calls.{Adds, Adds-attempt, Adds-pure, Adds-raise, Adds-reads, Adds-bind}
