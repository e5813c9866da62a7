-- ===== src/Chromesweep/Retarget.antt =====
-- chromesweep/retarget.go but for its loaders, which are in Cluster.
pub mod Selects
use gubal.Common.{
  Bool, List, [], ◌∷◌, ◌++◌, Option, none, some, map, Bytes, bytes, ◌==◌, if◌then◌else◌,
}
use gubal.Strings.{replace_all}
use gubal.Chromesweep.Objects.{
  Labels, LabelSelector, set_key, made, ObjectMeta, Container, PodTemplate, Deployment, Service,
  NetworkPolicy, Job,
}

abbrev pub app : Bytes
app = bytes "app"

unfoldable pub versioned_name : Bytes → Bytes → Bytes
versioned_name base tag = base ++ (bytes "-" ++ tag)

-- labels["app"] = name, where the map is made if it is nil
unfoldable pub set_app : Bytes → Option Labels → Option Labels
unfolding set_key
set_app name labels = some (set_key app name (made labels))

-- a selector that is nil is first made
abbrev pub filled : Option LabelSelector → LabelSelector
filled none = record { match_labels = none; match_expressions = [] }
filled (some selector) = selector

-- selector.MatchLabels["app"] = name; the expressions stay
unfoldable pub select_app : Bytes → LabelSelector → LabelSelector
unfolding set_app
select_app name selector = record selector { match_labels = set_app name selector.match_labels }

unfoldable pub set_image : Bytes → Bytes → List Container → List Container
set_image container image [] = []
set_image container image (ct ∷ cts) =
    (if ct.name == container then record ct { image = image } else ct)
    ∷ set_image container image cts

unfoldable pub retarget_deployment : Deployment → Bytes → Bytes → Bytes → Deployment
unfolding set_app select_app set_image
retarget_deployment dep name container image = record dep {
  meta = record dep.meta { name = name; labels = set_app name dep.meta.labels };
  selector = some (select_app name (filled dep.selector));
  template = record dep.template {
    labels = set_app name dep.template.labels;
    containers = set_image container image dep.template.containers;
  };
}

unfoldable pub retarget_service : Service → Bytes → Service
unfolding set_app
retarget_service svc name = record svc {
  meta = record svc.meta { name = name; labels = set_app name svc.meta.labels };
  selector = set_app name svc.selector;
}

unfoldable pub lockdown : Bytes → Bytes
lockdown name = name ++ bytes "-lockdown"

unfoldable pub retarget_network_policy : NetworkPolicy → Bytes → NetworkPolicy
unfolding select_app lockdown
retarget_network_policy np name = record np {
  meta = record np.meta { name = lockdown name };
  pod_selector = select_app name np.pod_selector;
}

abbrev pub with_port : Bytes → Bytes
with_port host = host ++ bytes ":9222"

unfoldable pub retarget_arg : Bytes → Bytes → Bytes → Bytes
retarget_arg base_host versioned_host arg =
    replace_all arg (with_port base_host) (with_port versioned_host)

retarget_containers : Bytes → Bytes → List Container → List Container
unfolding retarget_arg
retarget_containers base_host versioned_host [] = []
retarget_containers base_host versioned_host (c ∷ cs) =
    record c { args = map (retarget_arg base_host versioned_host) c.args }
    ∷ retarget_containers base_host versioned_host cs

unfoldable pub retarget_job : Job → Bytes → Bytes → Bytes → Job
unfolding retarget_containers
retarget_job job name base_host versioned_host = record job {
  meta = record job.meta { name = name };
  containers = retarget_containers base_host versioned_host job.containers;
}
