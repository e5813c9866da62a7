-- ===== src/Chromesweep/Cluster/Pods.antt =====
-- The methods of chromesweep/cluster.go on pods: logs, the frame collector and the copy of a frame.
use gubal.Common.{
  ℕ, Bool, true, false, List, [], ◌∷◌, ◌++◌, Option, none, some, Bytes, bytes, ltb, Result, ok, err,
  if◌then◌else◌,
}
use gubal.Common.Errors.{Error, wrap, errorf, is_not_found, is_already_exists}
use gubal.Chromesweep.Objects.{claim, Pod}
use gubal.Chromesweep.Host.{
  Host, pod, Context, Polled, M, pure, raise, attempt, reads, ◌>>=◌, ◌>>◌, in_context,
}
use gubal.Chromesweep.Cluster.{create, delete, wait_gone, poll_until}

-- the first of the pods that no later one is newer than
newest_from : Pod → List Pod → Pod
newest_from newest [] = newest
newest_from newest (p ∷ pods) =
    newest_from (if ltb newest.created p.created then p else newest) pods

unfoldable pub newest_pod : List Pod → Option Pod
unfolding newest_from
newest_pod [] = none
newest_pod (p ∷ pods) = some (newest_from p pods)

abbrev pub collector_pod : Bytes → Bytes → Bytes → Pod
collector_pod ns name pvc = record {
  meta = record { name = name; namespace = ns; labels = none; resource_version = [] };
  created = 0;
  running = false;
  containers =
      record {
        name = bytes "collector";
        image = bytes "busybox:1.36";
        args = bytes "sleep" ∷ bytes "infinity" ∷ [];
        env = [];
        volume_mounts =
            record {
              name = bytes "frames";
              mount_path = bytes "/data";
              read_only = true;
              rest = [];
            }
            ∷ [];
        rest = [];
      }
      ∷ [];
  volumes = record { name = bytes "frames"; source = claim pvc } ∷ [];
  rest = bytes "restartPolicy: Never";
}

-- the text that was read, and the error that ended the reading, if one did
pub record LogRead : Type 0 where
  pub text : Bytes
  pub error : Option Error

log_read : Result Error (Bytes × Option Error) → LogRead
log_read (ok (text, error)) = record { text = text; error = error }
log_read (err e) = record { text = []; error = some e }

module _ (h : Host) (ns : Bytes) where
  unfoldable pub logs_of_newest : Context → Bytes → Bytes → Option Pod → M h (Bytes × Option Error)
  logs_of_newest ctx selector container none =
      raise (errorf (bytes "no pods for selector " ++ selector))
  logs_of_newest ctx selector container (some p) = reads (h.pod_logs ctx ns p.meta.name container)

  unfoldable pub pod_logs_by_selector : Context → Bytes → Bytes → M h LogRead
  unfolding logs_of_newest newest_pod log_read
  pod_logs_by_selector ctx selector container = do
    r ← attempt (do
      pods ← reads (h.list_pods ctx ns selector)
      logs_of_newest ctx selector container (newest_pod pods))
    pure (log_read r)

  unfoldable pub job_container_logs : Context → Bytes → Bytes → M h LogRead
  job_container_logs ctx job_name container =
      pod_logs_by_selector ctx (bytes "job-name=" ++ job_name) container

  unfoldable pub deployment_pod_logs : Context → Bytes → Bytes → M h LogRead
  deployment_pod_logs ctx name container = pod_logs_by_selector ctx (bytes "app=" ++ name) container

  pod_running : Result Error Pod → Result Error Bool
  pod_running (ok p) = ok p.running
  pod_running (err e) = err e

  running_condition : Context → Bytes → Bool → h.World → Polled × h.World
  unfolding pod_running
  running_condition ctx name v w = let (r, w') = h.get pod ctx ns name w in ((v, pod_running r), w')

  unfoldable pub after_stale : M h Bool → Result Error Unit → M h Unit
  after_stale wait (ok _) = do
    in_context (bytes "waiting for stale collector to clear") wait
    pure tt
  after_stale wait (err e) =
      if is_not_found e then pure tt else raise (wrap (bytes "deleting stale collector") e)

  -- a collector that already exists is taken as it is
  unfoldable pub after_create : Result Error Unit → M h Unit
  after_create (ok _) = pure tt
  after_create (err e) =
      if is_already_exists e then pure tt else raise (wrap (bytes "creating collector") e)

  unfoldable pub ensure_collector : Context → Bytes → Bytes → ℕ → M h Unit
  unfolding after_stale after_create running_condition
  ensure_collector ctx name pvc timeout = do
    d ← attempt (delete h ns pod ctx name false)
    after_stale (wait_gone h ns pod ctx name timeout) d
    c ← attempt (create h ns pod ctx (collector_pod ns name pvc))
    after_create c
    poll_until h ns ctx 1 timeout (running_condition ctx name)
    pure tt

  unfoldable pub after_delete : Result Error Unit → M h Unit
  after_delete (ok _) = pure tt
  after_delete (err e) = if is_not_found e then pure tt else raise e

  unfoldable pub delete_collector : Context → Bytes → M h Unit
  unfolding after_delete
  delete_collector ctx name = do d ← attempt (delete h ns pod ctx name false); after_delete d

  from_option : Option Error × h.World → Result Error Unit × h.World
  from_option (none, w) = (ok tt, w)
  from_option (some e, w) = (err e, w)

  unfoldable pub copy_frame : Context → Bytes → Bytes → Bytes → M h Unit
  unfolding from_option
  copy_frame ctx collector remote_path local_path = do
    let src = ns ++ (bytes "/" ++ (collector ++ (bytes ":" ++ remote_path)))
    reads (λ w. from_option (h.mkdir_all (h.dir_path local_path) w))
    in_context (bytes "kubectl cp " ++ src)
        (reads (λ w. from_option (h.kubectl_cp ctx src local_path w)))
