-- ===== src/Chromesweep/Cluster/Waits.antt =====
-- What the waits saw when they return without an error, by the documented behaviour of polling.
use gubal.Common.{
  ℕ, Bool, true, false, ◌≡◌, refl, ap, ◌∙◌, arith, Option, none, some, Result, ok, err, Bytes,
}
use gubal.Common.Errors.{Error}
use gubal.Chromesweep.Objects.{Deployment, Job}
use gubal.Chromesweep.Host.{Host, deployment, job, Context, Polled, State, PollReturns, reads}
use gubal.Chromesweep.Cluster.{
  rolled_out, job_verdict, poll_until, deployment_ready, ready_condition, wait_deployment_ready,
  job_over, job_condition, wait_job,
}

module _ (h : Host) (ns : Bytes) (returns : PollReturns h) where
  poll_until_ok :
      (ctx : Context) (interval timeout : ℕ) (cond : Bool → h.World → Polled × h.World)
      (s : State h) (b : Bool)
      → (poll_until h ns ctx interval timeout cond s).0 ≡ ok b
      → (u : Bool) × (x : h.World) × (w : h.World) × (cond u x ≡ ((b, ok true), w))
  unfolding poll_until reads
  poll_until_ok ctx interval timeout cond s b e =
      go (h.poll ctx interval timeout cond false s.world) refl e
    where
      polled : Bool → Option Error → Result Error Bool
      polled c none = ok c
      polled c (some x) = err x

      go :
          (r : (Bool × Option Error) × h.World)
          → h.poll ctx interval timeout cond false s.world ≡ r
          → (elim (r.0.1) [ none ↦ ok (r.0.0) | some x ↦ err x ]) ≡ ok b
          → (u : Bool) × (x : h.World) × (w : h.World) × (cond u x ≡ ((b, ok true), w))
      go ((c, none), w) q k =
          let same : c ≡ b = cc k in
          let (u, x, seen) =
            returns ctx interval timeout cond false b s.world w
              (q ∙ ap (λ d. ((d, none), w)) same) in
          (u, x, w, seen)
      go ((c, some x), w) q k = cc k

  over_sound :
      (r : Result Error Job) (v b : Bool)
      → job_over h ns r v ≡ (b, ok true)
      → (j : Job) × (r ≡ ok j) × (job_verdict j.conditions ≡ some b)
  unfolding job_over
  over_sound (ok j) v b e = (j, refl, go (job_verdict j.conditions) refl e)
    where
      go :
          (o : Option Bool)
          → job_verdict j.conditions ≡ o
          → (let p : Polled = elim o [ none ↦ (v, ok false) | some c ↦ (c, ok true) ] in p)
            ≡ (b, ok true)
          → job_verdict j.conditions ≡ some b
      go none q k = absurd (ground arith)
      go (some c) q k = q ∙ ground arith
  over_sound (err x) v b e = absurd (ground arith)

  -- Where WaitJob returns a verdict, the Job was read with conditions that have that verdict.
  pub wait_job_sound :
      (ctx : Context) (name : Bytes) (timeout : ℕ) (s : State h) (b : Bool)
      → (wait_job h ns ctx name timeout s).0 ≡ ok b
      → (x : h.World) × (j : Job) × ((h.get job ctx ns name x).0 ≡ ok j)
        × (job_verdict j.conditions ≡ some b)
  unfolding wait_job
  wait_job_sound ctx name timeout s b e =
      let (u, x, w, seen) = poll_until_ok ctx 3 timeout (job_condition h ns ctx name) s b e in
      let (j, read, verdict) =
        over_sound (h.get job ctx ns name x).0 u b (unfold job_condition in ap (λ p. p.0) seen) in
      (x, j, read, verdict)

  ready_sound :
      (r : Result Error Deployment)
      → deployment_ready h ns r ≡ ok true
      → (d : Deployment) × (r ≡ ok d) × (rolled_out d ≡ true)
  unfolding deployment_ready
  ready_sound (ok d) e = (d, refl, cc e)
  ready_sound (err x) e = cc e

  -- Where WaitDeploymentReady returns without an error, the Deployment was read as rolled out.
  pub wait_deployment_ready_sound :
      (ctx : Context) (name : Bytes) (timeout : ℕ) (s : State h) (b : Bool)
      → (wait_deployment_ready h ns ctx name timeout s).0 ≡ ok b
      → (x : h.World) × (d : Deployment) × ((h.get deployment ctx ns name x).0 ≡ ok d)
        × (rolled_out d ≡ true)
  unfolding wait_deployment_ready
  wait_deployment_ready_sound ctx name timeout s b e =
      let (u, x, w, seen) = poll_until_ok ctx 2 timeout (ready_condition h ns ctx name) s b e in
      let (d, read, ready) =
        ready_sound (h.get deployment ctx ns name x).0
          (unfold ready_condition in ap (λ p. p.0.1) seen) in
      (x, d, read, ready)
