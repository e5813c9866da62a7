-- ===== src/Chromesweep/Cluster/Replace.antt =====
-- Which calls the methods of Cluster make.
use gubal.Common.{
  ℕ, Bool, List, [], ◌∷◌, ◌++◌, ◌≡◌, refl, ◌∙◌, append_assoc, Bytes, Result, ok, err, Bool-cases,
  inl, inr, Option, none, some,
}
use gubal.Common.Errors.{Error, is_not_found}
use gubal.Chromesweep.Retarget.{lockdown}
use gubal.Chromesweep.Host.{
  Host, Kind, deployment, service, network_policy, job, Object, Context, Call, created, deleted,
  State, M, pure, raise, attempt, writes, ◌>>=◌,
}
use gubal.Chromesweep.Host.Calls.{
  Adds, Adds-pure, Adds-raise, Adds-attempt, Adds-reads, Adds-writes, Adds-in_context, Adds-bind,
}
use gubal.Chromesweep.Cluster.{
  name_of, pin, create, delete, poll_until, wait_gone, after_delete, create_or_replace,
  delete_version_resources, joined,
}

module _ (h : Host) (ns : Bytes) (P : Call → Type 0) where
  after_delete-Adds :
      (deleting waiting : Bytes) (wait : M h Bool) (r : Result Error Unit)
      → Adds P wait
      → Adds P (after_delete h ns deleting waiting wait r)
  unfolding after_delete
  after_delete-Adds deleting waiting wait (ok _) w =
      Adds-bind P _ _ (Adds-in_context P waiting wait w) (λ _. Adds-pure P tt)
  after_delete-Adds deleting waiting wait (err e) w = elim (Bool-cases (is_not_found e)) [
    | inl q ↦ rw q (Adds-pure P tt)
    | inr q ↦ rw q (Adds-raise P _)
  ]

  pub poll-Adds :
      (ctx : Context) (i t : ℕ) (name : Bytes) (c : _) → Adds P (poll_until h ns ctx i t c)
  unfolding poll_until
  poll-Adds ctx i t name c = Adds-reads P _

  pub create_or_replace-Adds :
      (k : Kind) (ctx : Context) (foreground : Bool) (a b c : Bytes) (o : Object k) (timeout : ℕ)
      → P (deleted k (name_of k o))
      → P (created k (name_of k (pin k ns o)))
      → Adds P (create_or_replace h ns k ctx foreground a b c o timeout)
  unfolding create_or_replace delete create wait_gone poll_until
  create_or_replace-Adds k ctx foreground a b c o timeout d m =
      Adds-bind P _ _ (Adds-attempt P _ (Adds-writes P _ _ d)) (λ r.
        Adds-bind P _ _ (after_delete-Adds a b _ r (Adds-reads P _))
          (λ _. Adds-in_context P c _ (Adds-writes P _ _ m)))

-- the deletes that end the sweep of a version, in their order
abbrev pub teardown_calls : Bytes → Bytes → List Call
teardown_calls name job_name =
    deleted deployment name
    ∷ deleted service name
    ∷ deleted network_policy (lockdown name)
    ∷ deleted job job_name
    ∷ []

module _ (h : Host) (ns : Bytes) where
  calls-joined : (o : Option Error) (s : State h) → (joined h ns o s).1.calls ≡ s.calls
  unfolding joined pure raise
  calls-joined none s = refl
  calls-joined (some e) s = refl

  -- DeleteVersionResources makes all four deletes, whatever each of them returns.
  pub calls-delete_version_resources :
      (ctx : Context) (name job_name : Bytes) (s : State h)
      → (delete_version_resources h ns ctx name job_name s).1.calls
        ≡ s.calls ++ teardown_calls name job_name
  unfolding delete_version_resources delete writes attempt ◌>>=◌ lockdown
  calls-delete_version_resources ctx name job_name s = calls-joined _ _ ∙ simp append_assoc
