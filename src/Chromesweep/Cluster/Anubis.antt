-- ===== src/Chromesweep/Cluster/Anubis.antt =====
-- The methods of chromesweep/cluster.go on the shared Anubis Deployment: its image, its pod template
-- and the wiring of a policy.
use gubal.Common.{
  Bool, true, false, List, [], ◌∷◌, ◌++◌, Option, none, some, Bytes, bytes, ◌==◌, Result, ok, err,
  if◌then◌else◌,
}
use gubal.Common.Errors.{Error, errorf, is_not_found}
use gubal.Chromesweep.Objects.{
  EnvVar, VolumeMount, Volume, config_map as config_map_source, Container, PodTemplate, Deployment,
  ConfigMap,
}
use gubal.Chromesweep.Host.{
  Host, deployment, config_map, Context, patched, M, pure, raise, attempt, writes, ◌>>=◌,
  in_context,
}
use gubal.Chromesweep.Cluster.{get, create, update}

abbrev pub anubis_policy_volume : Bytes
anubis_policy_volume = bytes "anubis-policy"

abbrev pub anubis_policy_mount_path : Bytes
anubis_policy_mount_path = bytes "/policy"

abbrev pub anubis_policy_file_name : Bytes
anubis_policy_file_name = bytes "botPolicies.yaml"

abbrev pub anubis_policy_env_var : Bytes
anubis_policy_env_var = bytes "POLICY_FNAME"

unfoldable pub upsert_env : Bytes → Bytes → List EnvVar → List EnvVar
upsert_env name value [] = record { name = name; value = value; value_from = none } ∷ []
upsert_env name value (e ∷ env) =
    if e.name == name
    then record e { value = value; value_from = none } ∷ env
    else e ∷ upsert_env name value env

unfoldable pub upsert_volume_mount : VolumeMount → List VolumeMount → List VolumeMount
upsert_volume_mount m [] = m ∷ []
upsert_volume_mount m (x ∷ mounts) =
    if x.name == m.name then m ∷ mounts else x ∷ upsert_volume_mount m mounts

-- the volume that it sets
abbrev pub config_map_volume : Bytes → Bytes → Volume
config_map_volume name config_map_name = record {
  name = name;
  source = config_map_source config_map_name;
}

unfoldable pub upsert_config_map_volume : Bytes → Bytes → List Volume → List Volume
upsert_config_map_volume name cm [] = config_map_volume name cm ∷ []
upsert_config_map_volume name cm (v ∷ vols) =
    if v.name == name
    then config_map_volume name cm ∷ vols
    else v ∷ upsert_config_map_volume name cm vols

abbrev pub policy_mount : VolumeMount
policy_mount = record {
  name = anubis_policy_volume;
  mount_path = anubis_policy_mount_path;
  read_only = true;
  rest = [];
}

-- the container named gets the variable and the mount
unfoldable pub wire_container : Container → Container
wire_container ct = record ct {
  env =
      upsert_env anubis_policy_env_var
        (anubis_policy_mount_path ++ (bytes "/" ++ anubis_policy_file_name)) ct.env;
  volume_mounts = upsert_volume_mount policy_mount ct.volume_mounts;
}

unfoldable pub wire_containers : Bytes → List Container → List Container
wire_containers container [] = []
wire_containers container (ct ∷ cts) =
    (if ct.name == container then wire_container ct else ct) ∷ wire_containers container cts

unfoldable pub has_container : Bytes → List Container → Bool
has_container container [] = false
has_container container (ct ∷ cts) =
    if ct.name == container then true else has_container container cts

-- what SetAnubisPolicy makes of a pod template; none where no container has the name
unfoldable pub wire_policy : Bytes → Bytes → PodTemplate → Option PodTemplate
unfolding wire_containers has_container wire_container upsert_env upsert_volume_mount
    upsert_config_map_volume
wire_policy container config_map_name t =
    if has_container container t.containers
    then some (record t {
      containers = wire_containers container t.containers;
      volumes = upsert_config_map_volume anubis_policy_volume config_map_name t.volumes;
    })
    else none

-- the image of the first container with a name
unfoldable pub image_of : Bytes → List Container → Option Bytes
image_of container [] = none
image_of container (ct ∷ cts) =
    if ct.name == container then some ct.image else image_of container cts

-- %q on text without bytes to escape
quoted : Bytes → Bytes
quoted s = bytes "\"" ++ (s ++ bytes "\"")

not_found_in : Bytes → Bytes → Error
unfolding quoted
not_found_in container name =
    errorf (bytes "container " ++ (quoted container ++ (bytes " not found in deployment " ++ name)))

module _ (h : Host) (ns : Bytes) where
  unfoldable pub set_image : Context → Bytes → Bytes → Bytes → M h Unit
  set_image ctx name container image =
      in_context (bytes "patching " ++ (name ++ bytes " image"))
        (writes (patched name) (h.patch_image ctx ns name container image))

  or_missing : Bytes → Bytes → Option Bytes → M h Bytes
  unfolding not_found_in
  or_missing container name none = raise (not_found_in container name)
  or_missing container name (some image) = pure image

  unfoldable pub container_image : Context → Bytes → Bytes → M h Bytes
  unfolding or_missing
  container_image ctx name container = do
    d ← get h ns deployment ctx name
    or_missing container name (image_of container d.template.containers)

  unfoldable pub after_get : Context → ConfigMap → Result Error ConfigMap → M h Unit
  after_get ctx cm (ok existing) = in_context (bytes "updating configmap " ++ cm.meta.name) (
      update h ns config_map ctx
        (record cm { meta = record cm.meta { resource_version = existing.meta.resource_version } }))
  after_get ctx cm (err e) =
      if is_not_found e
      then in_context (bytes "creating configmap " ++ cm.meta.name) (create h ns config_map ctx cm)
      else in_context (bytes "getting configmap " ++ cm.meta.name) (raise e)

  unfoldable pub create_or_replace_config_map : Context → ConfigMap → M h Unit
  unfolding after_get
  create_or_replace_config_map ctx cm = do
    r ← attempt (get h ns config_map ctx cm.meta.name)
    after_get ctx (record cm { meta = record cm.meta { namespace = ns } }) r

  unfoldable pub snapshot_pod_template : Context → Bytes → M h PodTemplate
  snapshot_pod_template ctx name = do d ← get h ns deployment ctx name; pure d.template

  unfoldable pub restore_pod_template : Context → Bytes → PodTemplate → M h Unit
  restore_pod_template ctx name template = do
    d ← get h ns deployment ctx name
    in_context (bytes "restoring " ++ (name ++ bytes " pod template"))
        (update h ns deployment ctx (record d { template = template }))

  unfoldable pub update_wired : Context → Bytes → Bytes → Deployment → Option PodTemplate → M h Unit
  unfolding not_found_in
  update_wired ctx name container d none = raise (not_found_in container name)
  update_wired ctx name container d (some template) =
      in_context (bytes "setting anubis policy on " ++ name)
        (update h ns deployment ctx (record d { template = template }))

  unfoldable pub set_anubis_policy : Context → Bytes → Bytes → Bytes → M h Unit
  unfolding update_wired
  set_anubis_policy ctx name container config_map_name = do
    d ← get h ns deployment ctx name
    update_wired ctx name container d (wire_policy container config_map_name d.template)
