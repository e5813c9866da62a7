-- ===== src/Chromesweep/Cluster/Wiring.antt =====
-- Wiring one policy after another only swaps the ConfigMap.
use gubal.Common.{
  true, List, [], ◌∷◌, some, ◌≡◌, refl, arith, Bytes, ◌==◌, ==_refl, Bool-cases, inl, inr,
}
use gubal.Chromesweep.Objects.{EnvVar, VolumeMount, Volume, Container, PodTemplate}
use gubal.Chromesweep.Cluster.Anubis.{
  upsert_env, upsert_volume_mount, upsert_config_map_volume, wire_container, wire_containers,
  has_container, wire_policy, anubis_policy_volume,
}

upsert_env_twice :
    (n v w : Bytes) (env : List EnvVar) → upsert_env n w (upsert_env n v env) ≡ upsert_env n w env
unfolding upsert_env
upsert_env_twice n v w [] = ground (arith, ==_refl n)
upsert_env_twice n v w (e ∷ env) = ground (arith, upsert_env_twice n v w env)

upsert_volume_mount_twice :
    (m : VolumeMount) (ms : List VolumeMount)
    → upsert_volume_mount m (upsert_volume_mount m ms) ≡ upsert_volume_mount m ms
unfolding upsert_volume_mount
upsert_volume_mount_twice m [] = ground (arith, ==_refl m.name)
upsert_volume_mount_twice m (x ∷ ms) =
    ground (arith, upsert_volume_mount_twice m ms, ==_refl m.name)

upsert_volume_twice :
    (n c d : Bytes) (vs : List Volume)
    → upsert_config_map_volume n d (upsert_config_map_volume n c vs)
      ≡ upsert_config_map_volume n d vs
unfolding upsert_config_map_volume
upsert_volume_twice n c d [] = ground (arith, ==_refl n)
upsert_volume_twice n c d (v ∷ vs) = ground (arith, upsert_volume_twice n c d vs, ==_refl n)

wire_container_twice : (ct : Container) → wire_container (wire_container ct) ≡ wire_container ct
unfolding wire_container
wire_container_twice ct = rw (upsert_env_twice, upsert_volume_mount_twice)

wire_containers_twice :
    (n : Bytes) (cts : List Container)
    → wire_containers n (wire_containers n cts) ≡ wire_containers n cts
unfolding wire_containers wire_container
wire_containers_twice n [] = refl
wire_containers_twice n (ct ∷ cts) = elim (Bool-cases (ct.name == n)) [
  | inl e ↦ rw (e, named ct) (rw (e, wire_container_twice, wire_containers_twice n cts))
  | inr e ↦ rw e (rw (e, wire_containers_twice n cts))
]
  where
    named : (c : Container) → (wire_container c).name ≡ c.name
    named c = unfold wire_container in refl

has_container-wire :
    (n m : Bytes) (cts : List Container)
    → has_container n (wire_containers m cts) ≡ has_container n cts
unfolding has_container wire_containers wire_container
has_container-wire n m [] = refl
has_container-wire n m (ct ∷ cts) = ground (arith, has_container-wire n m cts)

wired :
    (n c : Bytes) (t : PodTemplate) {t' : PodTemplate}
    → wire_policy n c t ≡ some t'
    → (has_container n t.containers ≡ true)
      × (t' ≡ record t {
        containers = wire_containers n t.containers;
        volumes = upsert_config_map_volume anubis_policy_volume c t.volumes;
      })
unfolding wire_policy
wired n c t h = ground arith

-- Wiring a policy where another is wired already gives the pod template that wiring it at first
-- gives: no variable, mount or volume is left from the one before, or doubled.
pub wire_policy_swap :
    (container c d : Bytes) (t : PodTemplate) {t' : PodTemplate}
    → wire_policy container c t ≡ some t'
    → wire_policy container d t' ≡ wire_policy container d t
wire_policy_swap n c d t h =
    let (has, e) = wired n c t h in
    rw e (
      unfold wire_policy in
      rw (
        has_container-wire n n t.containers,
        has,
        wire_containers_twice n t.containers,
        upsert_volume_twice anubis_policy_volume c d t.volumes,
      ))
