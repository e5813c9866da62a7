-- ===== src/Chromesweep/Cluster.antt =====
-- chromesweep/cluster.go: the methods of Cluster, over the host `h` and the namespace `ns`. Errors
-- are wrapped as in the source. Times are in seconds. The methods on pods' logs, the collector and the
-- Anubis Deployment are in the children.
pub mod Anubis
pub mod Pods
pub mod Wiring
pub mod Waits
pub mod Replace
use gubal.Common.{
  ℕ, ◌+◌, Bool, true, false, not, ◌&&◌, List, [], ◌∷◌, ◌++◌, Option, none, some, Bytes, bytes, ◌==◌,
  nat_eq, Result, ok, err, if◌then◌else◌,
}
use gubal.Common.Errors.{Error, wrap, errorf, other, is_not_found}
use gubal.Chromesweep.Objects.{
  ObjectMeta, Deployment, Service, NetworkPolicy, Job, Pod, ConfigMap, JobCondition, job_complete,
  job_failed, other_condition,
}
use gubal.Chromesweep.Retarget.{lockdown}
use gubal.Chromesweep.Host.{
  Host, Kind, deployment, service, network_policy, job, pod, config_map, Object, Context, Polled,
  Call, created, updated, deleted, patched, State, M, pure, raise, attempt, reads, writes, ◌>>=◌,
  ◌>>◌, in_context,
}

abbrev pub meta_of : (k : Kind) → Object k → ObjectMeta
meta_of deployment o = o.meta
meta_of service o = o.meta
meta_of network_policy o = o.meta
meta_of job o = o.meta
meta_of pod o = o.meta
meta_of config_map o = o.meta

abbrev pub name_of : (k : Kind) → Object k → Bytes
name_of k o = (meta_of k o).name

-- obj.Namespace = ns
abbrev pub pin : (k : Kind) → Bytes → Object k → Object k
pin deployment ns o = record o { meta = record o.meta { namespace = ns } }
pin service ns o = record o { meta = record o.meta { namespace = ns } }
pin network_policy ns o = record o { meta = record o.meta { namespace = ns } }
pin job ns o = record o { meta = record o.meta { namespace = ns } }
pin pod ns o = record o { meta = record o.meta { namespace = ns } }
pin config_map ns o = record o { meta = record o.meta { namespace = ns } }

-- the rollout is complete: spec.replicas, 1 where it is nil, of the newest generation
unfoldable pub rolled_out : Deployment → Bool
rolled_out d =
    let desired : ℕ = elim d.replicas [ none ↦ 1 | some n ↦ n ] in
    nat_eq d.generation d.observed_generation
    && nat_eq d.updated_replicas desired
    && nat_eq d.available_replicas desired
    && nat_eq d.unavailable_replicas 0

-- the first condition that is true and says that the Job is over: whether it is complete
unfoldable pub job_verdict : List JobCondition → Option Bool
job_verdict [] = none
job_verdict (c ∷ cs) =
    let rest = job_verdict cs in
    if not c.is_true
    then rest
    else elim c.kind [ job_complete ↦ some true | job_failed ↦ some false | other_condition ↦ rest ]

module _ (h : Host) (ns : Bytes) where
  unfoldable pub get : (k : Kind) → Context → Bytes → M h (Object k)
  get k ctx name = reads (h.get k ctx ns name)

  unfoldable pub create : (k : Kind) → Context → Object k → M h Unit
  create k ctx o = writes (created k (name_of k o)) (h.create k ctx ns o)

  unfoldable pub update : (k : Kind) → Context → Object k → M h Unit
  update k ctx o = writes (updated k (name_of k o)) (h.update k ctx ns o)

  unfoldable pub delete : Kind → Context → Bytes → Bool → M h Unit
  delete k ctx name foreground = writes (deleted k name) (h.delete k ctx ns name foreground)

  -- the captured variable, where the polling ends without an error
  unfoldable pub poll_until : Context → ℕ → ℕ → (Bool → h.World → Polled × h.World) → M h Bool
  poll_until ctx interval timeout cond = reads (λ w.
      let ((b, e), w') = h.poll ctx interval timeout cond false w in
      ((elim e [ none ↦ ok b | some x ↦ err x ]), w'))

  deployment_ready : Result Error Deployment → Result Error Bool
  deployment_ready (ok d) = ok (rolled_out d)
  deployment_ready (err e) = err e

  unfoldable pub ready_condition : Context → Bytes → Bool → h.World → Polled × h.World
  unfolding deployment_ready
  ready_condition ctx name v w =
      let (r, w') = h.get deployment ctx ns name w in ((v, deployment_ready r), w')

  unfoldable pub wait_deployment_ready : Context → Bytes → ℕ → M h Bool
  wait_deployment_ready ctx name timeout = poll_until ctx 2 timeout (ready_condition ctx name)

  is_gone : {A : Type 0} → Result Error A → Result Error Bool
  is_gone (ok a) = ok false
  is_gone (err e) = if is_not_found e then ok true else err e

  gone_condition : Kind → Context → Bytes → Bool → h.World → Polled × h.World
  unfolding is_gone
  gone_condition k ctx name v w = let (r, w') = h.get k ctx ns name w in ((v, is_gone r), w')

  unfoldable pub wait_gone : Kind → Context → Bytes → ℕ → M h Bool
  unfolding gone_condition
  wait_gone k ctx name timeout = poll_until ctx 1 timeout (gone_condition k ctx name)

  -- what follows the delete of an old object: nothing if there was none, and else a wait until it is
  -- gone
  after_delete : Bytes → Bytes → M h Bool → Result Error Unit → M h Unit
  after_delete deleting waiting wait (ok _) = do in_context waiting wait; pure tt
  after_delete deleting waiting wait (err e) =
      if is_not_found e then pure tt else raise (wrap deleting e)

  -- the body that ReplaceJob and the three CreateOrReplace methods share
  unfoldable pub create_or_replace :
      (k : Kind) → Context → Bool → Bytes → Bytes → Bytes → Object k → ℕ → M h Unit
  unfolding after_delete
  create_or_replace k ctx foreground deleting waiting creating o timeout = do
    let name = name_of k o
    r ← attempt (delete k ctx name foreground)
    after_delete deleting waiting (wait_gone k ctx name timeout) r
    in_context creating (create k ctx (pin k ns o))

  unfoldable pub replace_job : Context → Job → M h Unit
  replace_job ctx o =
      create_or_replace job ctx true (bytes "deleting old job")
        (bytes "waiting for old job to clear") (bytes "creating job") o 120

  unfoldable pub create_or_replace_deployment : Context → Deployment → ℕ → M h Unit
  create_or_replace_deployment ctx dep timeout =
      let name = dep.meta.name in
      create_or_replace deployment ctx false (bytes "deleting old deployment " ++ name)
        (bytes "waiting for old deployment " ++ (name ++ bytes " to clear"))
        (bytes "creating deployment " ++ name) dep timeout

  unfoldable pub create_or_replace_service : Context → Service → ℕ → M h Unit
  create_or_replace_service ctx svc timeout =
      let name = svc.meta.name in
      create_or_replace service ctx false (bytes "deleting old service " ++ name)
        (bytes "waiting for old service " ++ (name ++ bytes " to clear"))
        (bytes "creating service " ++ name) svc timeout

  unfoldable pub create_or_replace_network_policy : Context → NetworkPolicy → ℕ → M h Unit
  create_or_replace_network_policy ctx np timeout =
      let name = np.meta.name in
      create_or_replace network_policy ctx false (bytes "deleting old networkpolicy " ++ name)
        (bytes "waiting for old networkpolicy " ++ (name ++ bytes " to clear"))
        (bytes "creating networkpolicy " ++ name) np timeout

  -- an error that is not NotFound joins those before it
  join_error : Option Error → Result Error Unit → Option Error
  join_error errs (ok _) = errs
  join_error none (err e) = if is_not_found e then none else some (errorf e.text)
  join_error (some f) (err e) =
      if is_not_found e then some f else some (errorf (f.text ++ (bytes "\n" ++ e.text)))

  joined : Option Error → M h Unit
  joined none = pure tt
  joined (some e) = raise e

  unfoldable pub delete_version_resources : Context → Bytes → Bytes → M h Unit
  unfolding join_error joined lockdown
  delete_version_resources ctx name job_name = do
    d ← attempt (delete deployment ctx name true)
    s ← attempt (delete service ctx name false)
    n ← attempt (delete network_policy ctx (lockdown name) false)
    j ← attempt (delete job ctx job_name true)
    joined (join_error (join_error (join_error (join_error none d) s) n) j)

  job_over : Result Error Job → Bool → Polled
  job_over (err e) v = (v, err e)
  job_over (ok j) v = elim (job_verdict j.conditions) [
    | none ↦ (v, ok false)
    | some b ↦ (b, ok true)
  ]

  unfoldable pub job_condition : Context → Bytes → Bool → h.World → Polled × h.World
  unfolding job_over
  job_condition ctx name v w = let (r, w') = h.get job ctx ns name w in (job_over r v, w')

  -- whether the Job succeeded
  unfoldable pub wait_job : Context → Bytes → ℕ → M h Bool
  wait_job ctx name timeout = poll_until ctx 3 timeout (job_condition ctx name)
