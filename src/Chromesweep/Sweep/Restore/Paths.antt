-- ===== src/Chromesweep/Sweep/Restore/Paths.antt =====
-- How the parts of a run end: the paths through prepareAnubis, and the work behind it.
use gubal.Chromesweep.Host.{Object}
use gubal.Chromesweep.Host.{continue, deployment}
use gubal.Chromesweep.Sweep.{collector_pod_name}
use gubal.Common.{
  Bool, List, [], ◌∷◌, ◌++◌, ◌≡◌, refl, All, append-nil, append_assoc, sym, ap, ◌∙◌, inl, inr, ◌⊎◌,
  Result, ok, err, Bytes, ◌==◌, Bool-cases,
}
use gubal.Common.Errors.{Error}
use gubal.Chromesweep.Report.{Report}
use gubal.Chromesweep.Objects.{PodTemplate, Deployment}
use gubal.Chromesweep.Config.{Config}
use gubal.Chromesweep.Host.{
  Host, request, Call, State, M, pure, raise, attempt, in_context, ◌>>=◌, ◌>>◌,
}
use gubal.Chromesweep.Host.Returns.{Returns, Returns-pure, Returns-bind, Returns-attempt, bind_ok}
use gubal.Chromesweep.Cluster.{get}
use gubal.Chromesweep.Cluster.Anubis.{snapshot_pod_template}
use gubal.Chromesweep.Cluster.Pods.{ensure_collector}
use gubal.Chromesweep.Sweep.Run.{
  Prepared, run_prepared, restore_anubis, returned, with_collector, prepare_anubis, reimage,
  reimaged, load_manifest, decoded,
}
use gubal.Chromesweep.Sweep.Grows.{
  Grows, ensure_collector-Grows, with_collector-Grows, set_image-Grows,
}
use gubal.Chromesweep.Host.Calls.{Adds, Adds-attempt, Adds-pure, Adds-raise, Adds-reads, Adds-bind}

module _ (h : Host) (cfg : Config) where
  -- name and template of Anubis at the start of a run from a state: the name in the manifest that is
  -- loaded, and the template of the Deployment of that name that is read next
  abbrev pub IsTaken : State h → Bytes → PodTemplate → Type 0
  IsTaken s name snapshot =
      (dep : Deployment) × ((load_manifest h deployment cfg.anubis_manifest cfg.namespace s).0
        ≡ ok dep)
      × (dep.meta.name ≡ name)
      × ((snapshot_pod_template h cfg.namespace request name
            (load_manifest h deployment cfg.anubis_manifest cfg.namespace s).1).0
          ≡ ok snapshot)

  -- a later state of a run from `s`, with the calls that it had made there
  abbrev pub IsLater : State h → State h → Type 0
  IsLater s t = (cs : List Call) × (t.calls ≡ s.calls ++ cs)

  IsLater-Grows :
      {A : Type 0} (m : M h A) (s t : State h) → Grows m → IsLater s t → IsLater s (m t).1
  IsLater-Grows m s t g (cs, e) =
      let (ds, e', _) = g.at t in (cs ++ ds, e' ∙ ap (λ x. x ++ ds) e ∙ append_assoc s.calls cs ds)

  no_calls-append : {cs ds : List Call} → ds ≡ cs → (xs : List Call) × (ds ≡ cs ++ xs)
  no_calls-append {cs} e = ([], e ∙ sym (append-nil cs))

  -- a state that restoring Anubis leaves, in a run from `s`
  unfoldable pub IsRestored : State h → State h → Type 0
  IsRestored s t =
      (name : Bytes) × (snapshot : PodTemplate) × (s' : State h) × IsTaken s name snapshot
      × IsLater s s'
      × (t ≡ (restore_anubis h cfg name snapshot s').1)

  returned-state : (r : Result Error Report) (s : State h) → (returned h r s).1 ≡ s
  unfolding returned pure raise
  returned-state (ok rep) s = refl
  returned-state (err e) s = refl

  restore-Returns :
      (name : Bytes) (snapshot : PodTemplate)
      → Returns (λ _. Unit {0}) (restore_anubis h cfg name snapshot)
  unfolding restore_anubis
  restore-Returns name snapshot =
      Returns-bind _ _ _ (Returns-attempt _) (λ _ _. Returns-pure _ tt tt)

  pub run_prepared-IsRestored :
      (frames_dir : Bytes) (p : Prepared h) (s0 s : State h)
      → IsTaken s0 p.deployment p.snapshot
      → IsLater s0 s
      → IsRestored s0 (run_prepared h cfg frames_dir p s).1
  unfolding run_prepared IsRestored
  run_prepared-IsRestored frames_dir p s0 s taken later =
      let work = attempt (
        ensure_collector h cfg.namespace request collector_pod_name cfg.collector_pvc
          cfg.ready_timeout
        >> with_collector h cfg frames_dir p) in
      let s' = (work s).1 in
      let restore = restore_anubis h cfg p.deployment p.snapshot in
      let (r, worked, _) =
        (Returns-attempt (
            ensure_collector h cfg.namespace request collector_pod_name cfg.collector_pvc
              cfg.ready_timeout
            >> with_collector h cfg frames_dir p)).at
          s in
      let (_, restored, _) = (restore-Returns p.deployment p.snapshot).at s' in
      (
        p.deployment,
        p.snapshot,
        s',
        taken,
        IsLater-Grows work s0 s
            (Adds-attempt _ _ (
              Adds-bind _ _ _ (ensure_collector-Grows h _ _ _ _ _)
                (λ _. with_collector-Grows h cfg frames_dir p)))
            later,
        ap (λ x. x.1)
              (bind_ok work (λ r. restore >> returned h r) s worked
                ∙ bind_ok restore (λ _. returned h r) s' restored)
            ∙ returned-state r (restore s').1,
      )

  -- how a part of prepareAnubis ends, in a run from `s0`: with a value that is good, or with an error
  -- before any call that changes the cluster or after Anubis is restored
  abbrev pub Ends : {A : Type 0} → State h → (A → Type 0) → Result Error A × State h → Type 0
  Ends {A} s0 good r =
      ((a : A) × (r.0 ≡ ok a) × good a × IsLater s0 r.1)
      ⊎ ((e : Error) × (r.0 ≡ err e) × ((r.1.calls ≡ s0.calls) ⊎ IsRestored s0 r.1))

  quiet-calls : {A : Type 0} (m : M h A) → Adds (λ _. ⊥) m → (s : State h) → (m s).1.calls ≡ s.calls
  quiet-calls m q s = let (cs, e, none_added) = q.at s in go cs e none_added
    where
      go :
          (cs : List Call)
          → (m s).1.calls ≡ s.calls ++ cs
          → All (λ _. ⊥) cs
          → (m s).1.calls ≡ s.calls
      go [] e n = e ∙ append-nil s.calls
      go (c ∷ cs) e n = absurd n.0

  Ends-continue :
      {A B : Type 0} (s0 : State h) (good : B → Type 0) (r : Result Error A) (f : A → M h B)
      (s : State h)
      → s.calls ≡ s0.calls
      → ((a : A) → r ≡ ok a → Ends s0 good (f a s))
      → Ends s0 good (continue r f s)
  Ends-continue s0 good (ok a) f s e k = k a refl
  Ends-continue s0 good (err x) f s e k = inr (x, refl, inl e)

  of_context :
      {A : Type 0} (t : Bytes) (m : M h A) (s : State h) {a : A}
      → (in_context t m s).0 ≡ ok a
      → (m s).0 ≡ ok a
  unfolding in_context
  of_context t m s {a} e = go (m s).0 refl
    where
      go : (r : Result Error _) → (m s).0 ≡ r → (m s).0 ≡ ok a
      go (ok b) q = let e' = rw q at e in q ∙ e'
      go (err x) q = absurd (let e' = rw q at e in cc e')

  -- a part that only reads, in some context, before the others
  Ends-bind :
      {A B : Type 0} (s0 : State h) (good : B → Type 0) (t : Bytes) (m : M h A) (f : A → M h B)
      (s : State h)
      → Adds (λ _. ⊥) m
      → s.calls ≡ s0.calls
      → ((a : A) → (m s).0 ≡ ok a → Ends s0 good (f a (m s).1))
      → Ends s0 good ((in_context t m >>= f) s)
  unfolding ◌>>=◌ in_context
  Ends-bind s0 good t m f s q e k =
      Ends-continue s0 good _ f (m s).1 (quiet-calls m q s ∙ e) (λ a r. k a (of_context t m s r))

  pure-Ends :
      {A : Type 0} (good : A → Type 0) (a : A) (s0 s : State h)
      → good a
      → IsLater s0 s
      → Ends s0 good (pure {h = h} a s)
  unfolding pure
  pure-Ends good a s0 s g later = inl (a, refl, g, later)

  reimaged-Ends :
      {A : Type 0} (good : A → Type 0) (name : Bytes) (snapshot : PodTemplate) (a : A)
      (r : Result Error Bool) (s0 s : State h)
      → IsTaken s0 name snapshot
      → good a
      → IsLater s0 s
      → Ends s0 good ((reimaged h cfg name snapshot r >> pure a) s)
  unfolding reimaged ◌>>=◌ pure raise
  reimaged-Ends good name snapshot a (ok b) s0 s taken g later = inl (a, refl, g, later)
  reimaged-Ends good name snapshot a (err e) s0 s taken g later =
      let (_, q, _) = (restore-Returns name snapshot).at s in
      inr (e, rw q refl, inr (unfold IsRestored in (name, snapshot, s, taken, later, rw q)))

  reimage-Ends :
      {A : Type 0} (good : A → Type 0) (name : Bytes) (snapshot : PodTemplate) (a : A)
      (s0 s : State h)
      → IsTaken s0 name snapshot
      → good a
      → IsLater s0 s
      → Ends s0 good ((reimage h cfg name snapshot >> pure a) s)
  unfolding reimage ◌>>=◌ attempt
  reimage-Ends good name snapshot a s0 s taken g later =
      reimaged-Ends good name snapshot a _ s0 _ taken g
        (IsLater-Grows _ s0 s (set_image-Grows h _ _ _ _ _ _ _) later)

  load-quiet : (path ns : Bytes) → Adds (λ _. ⊥) (load_manifest h deployment path ns)
  unfolding load_manifest
  load-quiet path ns =
      Adds-bind _ _ _ (Adds-reads _ _) (λ raw. decode (h.unmarshal_yaml deployment raw))
    where
      decode :
          (r : Result Error (Object deployment)) → Adds (λ _. ⊥) (decoded h deployment path ns r)
      decode (ok o) = unfold decoded in Adds-pure _ _
      decode (err e) = unfold decoded in Adds-raise _ _

  snapshot-quiet :
      (name : Bytes) → Adds (λ _. ⊥) (snapshot_pod_template h cfg.namespace request name)
  unfolding snapshot_pod_template get
  snapshot-quiet name = Adds-bind _ _ _ (Adds-reads _ _) (λ d. Adds-pure _ _)

  pub prepare_anubis-Ends :
      (s : State h)
      → Ends s (λ (p : Prepared h). IsTaken s p.deployment p.snapshot) (prepare_anubis h cfg s)
  unfolding prepare_anubis
  prepare_anubis-Ends s =
      Ends-bind s _ _ (load_manifest h deployment cfg.anubis_manifest cfg.namespace) _ s
        (load-quiet _ _) refl
        (λ dep loaded.
          Ends-bind s _ _ (snapshot_pod_template h cfg.namespace request dep.meta.name) _ _
            (snapshot-quiet _) (quiet-calls _ (load-quiet _ _) s)
            (λ snapshot read.
              let taken : IsTaken s dep.meta.name snapshot = (dep, loaded, refl, read) in
              let later =
                no_calls-append
                  (quiet-calls _ (snapshot-quiet _) _ ∙ quiet-calls _ (load-quiet _ _) s) in
              elim (Bool-cases (cfg.anubis_image == [])) [
                | inl e ↦ rw e (pure-Ends _ _ s _ taken later)
                | inr e ↦ rw e (reimage-Ends _ dep.meta.name snapshot _ s _ taken taken later)
              ]))
