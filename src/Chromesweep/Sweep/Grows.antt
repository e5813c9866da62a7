-- ===== src/Chromesweep/Sweep/Grows.antt =====
-- A run only adds calls to those before it.
use gubal.Common.{
  List, [], ◌∷◌, Option, none, some, Result, ok, err, All, Bytes, ◌==◌, Bool-cases, inl, inr,
}
use gubal.Common.Errors.{Error, is_not_found, is_already_exists}
use gubal.Chromesweep.Policies.{Policy}
use gubal.Chromesweep.Objects.{PodTemplate, Deployment, ConfigMap}
use gubal.Chromesweep.Config.{Browser, Config}
use gubal.Chromesweep.Host.{
  Host, Kind, deployment, service, network_policy, job, Object, Call, Context, M, request,
  in_context, ◌>>◌,
}
use gubal.Chromesweep.Host.Calls.{
  Adds, Adds-pure, Adds-raise, Adds-attempt, Adds-reads, Adds-writes, Adds-in_context, Adds-bind,
}
use gubal.Chromesweep.Cluster.{
  get, create, update, delete, poll_until, wait_gone, wait_deployment_ready,
}
use gubal.Chromesweep.Cluster.Anubis.{
  set_image, after_get, create_or_replace_config_map, update_wired, set_anubis_policy,
}
use gubal.Chromesweep.Cluster.Pods.{
  after_stale, after_create, after_delete, ensure_collector, delete_collector,
}
use gubal.Chromesweep.Sweep.{BaseManifests, Pass, sweep_one}
use gubal.Chromesweep.Sweep.Teardown.{sweep_one_teardown}
use gubal.Chromesweep.Sweep.Run.{
  Prepared, decoded, load_manifest, load_base_manifests, sweep_versions, sweep_browser,
  sweep_browsers, apply_policy, swept, sweep_policy, sweep_policies, with_collector,
}

abbrev pub Grows : {h : Host} {A : Type 0} → M h A → Type 0
Grows m = Adds (λ _. Unit {0}) m

All-any : (cs : List Call) → All (λ _. Unit {0}) cs
All-any [] = tt
All-any (c ∷ cs) = (tt, All-any cs)

module _ (h : Host) where
  delete-Grows :
      (ns : Bytes) (k : Kind) (ctx : Context) (name : Bytes) (f : _)
      → Grows (delete h ns k ctx name f)
  unfolding delete
  delete-Grows ns k ctx name f = Adds-writes _ _ _ tt

  wait-Grows :
      (ns : Bytes) (ctx : Context) (name : Bytes) (t : _)
      → Grows (wait_deployment_ready h ns ctx name t)
  unfolding wait_deployment_ready poll_until
  wait-Grows ns ctx name t = Adds-reads _ _

  after_stale-Grows :
      (ns : Bytes) (wait : M h _) (r : Result Error Unit)
      → Grows wait
      → Grows (after_stale h ns wait r)
  unfolding after_stale
  after_stale-Grows ns wait (ok _) w =
      Adds-bind _ _ _ (Adds-in_context _ _ _ w) (λ _. Adds-pure _ _)
  after_stale-Grows ns wait (err e) w = elim (Bool-cases (is_not_found e)) [
    | inl q ↦ rw q (Adds-pure _ _)
    | inr q ↦ rw q (Adds-raise _ _)
  ]

  after_create-Grows : (ns : Bytes) (r : Result Error Unit) → Grows (after_create h ns r)
  unfolding after_create
  after_create-Grows ns (ok _) = Adds-pure _ _
  after_create-Grows ns (err e) = elim (Bool-cases (is_already_exists e)) [
    | inl q ↦ rw q (Adds-pure _ _)
    | inr q ↦ rw q (Adds-raise _ _)
  ]

  after_delete-Grows : (ns : Bytes) (r : Result Error Unit) → Grows (after_delete h ns r)
  unfolding after_delete
  after_delete-Grows ns (ok _) = Adds-pure _ _
  after_delete-Grows ns (err e) = elim (Bool-cases (is_not_found e)) [
    | inl q ↦ rw q (Adds-pure _ _)
    | inr q ↦ rw q (Adds-raise _ _)
  ]

  pub ensure_collector-Grows :
      (ns : Bytes) (ctx : Context) (name pvc : Bytes) (t : _)
      → Grows (ensure_collector h ns ctx name pvc t)
  unfolding ensure_collector wait_gone poll_until create
  ensure_collector-Grows ns ctx name pvc t =
      Adds-bind _ _ _ (Adds-attempt _ _ (delete-Grows _ _ _ _ _)) (λ d.
        Adds-bind _ _ _ (after_stale-Grows ns _ d (Adds-reads _ _)) (λ _.
          Adds-bind _ _ _ (Adds-attempt _ _ (Adds-writes _ _ _ tt)) (λ c.
            Adds-bind _ _ _ (after_create-Grows ns c)
              (λ _. Adds-bind _ _ _ (Adds-reads _ _) (λ _. Adds-pure _ _)))))

  delete_collector-Grows :
      (ns : Bytes) (ctx : Context) (name : Bytes) → Grows (delete_collector h ns ctx name)
  unfolding delete_collector
  delete_collector-Grows ns ctx name =
      Adds-bind _ _ _ (Adds-attempt _ _ (delete-Grows _ _ _ _ _)) (λ d. after_delete-Grows ns d)

  decoded-Grows :
      (k : Kind) (path ns : Bytes) (r : Result Error (Object k)) → Grows (decoded h k path ns r)
  unfolding decoded
  decoded-Grows k path ns (ok o) = Adds-pure _ _
  decoded-Grows k path ns (err e) = Adds-raise _ _

  load-Grows : (k : Kind) (path ns : Bytes) → Grows (load_manifest h k path ns)
  unfolding load_manifest
  load-Grows k path ns = Adds-bind _ _ _ (Adds-reads _ _) (λ raw. decoded-Grows _ _ _ _)

  load_base-Grows : (b : Browser) (ns : Bytes) → Grows (load_base_manifests h b ns)
  unfolding load_base_manifests
  load_base-Grows b ns = Adds-bind _ _ _ (load-Grows deployment _ _) (λ d.
      Adds-bind _ _ _ (load-Grows service _ _) (λ s.
        Adds-bind _ _ _ (load-Grows network_policy _ _)
          (λ n. Adds-bind _ _ _ (load-Grows job _ _) (λ j. Adds-pure _ _))))

  sweep_one-Grows : (p : Pass) (tag : Bytes) → Grows (sweep_one h p tag)
  sweep_one-Grows p tag = record {
    at = λ s. let (cs, e, _) = sweep_one_teardown h p tag s in (_, e, All-any _);
  }

  sweep_versions-Grows : (p : Pass) (tags : List Bytes) → Grows (sweep_versions h p tags)
  unfolding sweep_versions
  sweep_versions-Grows p [] = Adds-pure _ _
  sweep_versions-Grows p (tag ∷ tags) =
      Adds-bind _ _ _ (sweep_one-Grows p tag)
        (λ r. Adds-bind _ _ _ (sweep_versions-Grows p tags) (λ rs. Adds-pure _ _))

  sweep_browser-Grows :
      (cfg : Config) (frames_dir policy : Bytes) (b : Browser) (r : Result Error BaseManifests)
      → Grows (sweep_browser h cfg frames_dir policy b r)
  unfolding sweep_browser
  sweep_browser-Grows cfg frames_dir policy b (ok base) = sweep_versions-Grows _ _
  sweep_browser-Grows cfg frames_dir policy b (err e) = Adds-pure _ _

  sweep_browsers-Grows :
      (cfg : Config) (frames_dir policy : Bytes) (bs : List Browser)
      → Grows (sweep_browsers h cfg frames_dir policy bs)
  unfolding sweep_browsers
  sweep_browsers-Grows cfg frames_dir policy [] = Adds-pure _ _
  sweep_browsers-Grows cfg frames_dir policy (b ∷ bs) =
      Adds-bind _ _ _ (Adds-attempt _ _ (load_base-Grows b _)) (λ base.
        Adds-bind _ _ _ (sweep_browser-Grows cfg frames_dir policy b base) (λ rs.
          Adds-bind _ _ _ (sweep_browsers-Grows cfg frames_dir policy bs) (λ rest. Adds-pure _ _)))

  after_get-Grows :
      (ns : Bytes) (ctx : Context) (cm : ConfigMap) (r : Result Error ConfigMap)
      → Grows (after_get h ns ctx cm r)
  unfolding after_get update create
  after_get-Grows ns ctx cm (ok existing) = Adds-in_context _ _ _ (Adds-writes _ _ _ tt)
  after_get-Grows ns ctx cm (err e) = elim (Bool-cases (is_not_found e)) [
    | inl q ↦ rw q (Adds-in_context _ _ _ (Adds-writes _ _ _ tt))
    | inr q ↦ rw q (Adds-in_context _ _ _ (Adds-raise _ _))
  ]

  update_wired-Grows :
      (ns : Bytes) (ctx : Context) (name container : Bytes) (d : Deployment)
      (t : Option PodTemplate)
      → Grows (update_wired h ns ctx name container d t)
  unfolding update_wired update
  update_wired-Grows ns ctx name container d none = Adds-raise _ _
  update_wired-Grows ns ctx name container d (some t) = Adds-in_context _ _ _ (Adds-writes _ _ _ tt)

  apply_policy-Grows :
      (cfg : Config) (name : Bytes) (pol : Policy) → Grows (apply_policy h cfg name pol)
  unfolding apply_policy create_or_replace_config_map set_anubis_policy get
  apply_policy-Grows cfg name pol =
      Adds-bind _ _ _
        (Adds-in_context _ _ _
          (Adds-bind _ _ _ (Adds-attempt _ _ (Adds-reads _ _)) (λ r. after_get-Grows _ _ _ r)))
        (λ _.
          Adds-bind _ _ _
            (Adds-in_context _ _ _
              (Adds-bind _ _ _ (Adds-reads _ _) (λ d. update_wired-Grows _ _ _ _ d _)))
            (λ _.
              Adds-bind _ _ _ (Adds-in_context _ _ _ (wait-Grows _ _ _ _)) (λ _. Adds-pure _ _)))

  swept-Grows :
      (cfg : Config) (frames_dir : Bytes) (pol : Policy) (r : Result Error Unit)
      → Grows (swept h cfg frames_dir pol r)
  unfolding swept
  swept-Grows cfg frames_dir pol (ok _) = sweep_browsers-Grows _ _ _ _
  swept-Grows cfg frames_dir pol (err e) = Adds-pure _ _

  sweep_policy-Grows :
      (cfg : Config) (name frames_dir : Bytes) (pol : Policy)
      → Grows (sweep_policy h cfg name frames_dir pol)
  unfolding sweep_policy
  sweep_policy-Grows cfg name frames_dir pol =
      Adds-bind _ _ _
        (elim (Bool-cases (pol.name == [])) [
          | inl q ↦ rw q (Adds-attempt _ _ (Adds-pure _ _))
          | inr q ↦ rw q (Adds-attempt _ _ (apply_policy-Grows cfg name pol))
        ])
        (λ r. swept-Grows cfg frames_dir pol r)

  sweep_policies-Grows :
      (cfg : Config) (name frames_dir : Bytes) (pols : List Policy)
      → Grows (sweep_policies h cfg name frames_dir pols)
  unfolding sweep_policies
  sweep_policies-Grows cfg name frames_dir [] = Adds-pure _ _
  sweep_policies-Grows cfg name frames_dir (pol ∷ pols) =
      Adds-bind _ _ _ (sweep_policy-Grows cfg name frames_dir pol) (λ rs.
        Adds-bind _ _ _ (sweep_policies-Grows cfg name frames_dir pols) (λ rest. Adds-pure _ _))

  pub with_collector-Grows :
      (cfg : Config) (frames_dir : Bytes) (p : Prepared h)
      → Grows (with_collector h cfg frames_dir p)
  unfolding with_collector
  with_collector-Grows cfg frames_dir p =
      Adds-bind _ _ _ (sweep_policies-Grows cfg _ frames_dir _) (λ rs.
        Adds-bind _ _ _ (Adds-attempt _ _ (delete_collector-Grows _ _ _)) (λ _. Adds-pure _ _))

  -- setting the image of Anubis and waiting for it
  pub set_image-Grows :
      (ns name container image : Bytes) (t : _) (a b : Bytes)
      → Grows (
          in_context a (set_image h ns request name container image)
          >> in_context b (wait_deployment_ready h ns request name t))
  unfolding set_image
  set_image-Grows ns name container image t a b =
      Adds-bind _ _ _ (Adds-in_context _ _ _ (Adds-in_context _ _ _ (Adds-writes _ _ _ tt)))
        (λ _. Adds-in_context _ _ _ (wait-Grows _ _ _ _))
