-- ===== src/Examples/Hosts.antt =====
-- A host on which every object is there and ready, no delete finds anything, and polling evaluates
-- its condition once.
use gubal.Common.{Bool, true, false, List, [], ◌∷◌, Option, none, some, ◌≡◌, Bytes, bytes, ok, err}
use gubal.Common.Errors.{Error, not_found}
use gubal.Chromesweep.Bundle.{BundleIo}
use gubal.Gubald.Session.{Env}
use gubal.Gubald.Clients.{comment, tigris_uploader, upload}
use gubal.ChromeSweep.{Cli}
use gubal.Chromesweep.Objects.{
  LabelSelector, ObjectMeta, Container, PodTemplate, Deployment, Service, NetworkPolicy, Job,
  job_complete,
}
use gubal.Chromesweep.Host.{
  Host, Kind, deployment, service, network_policy, job, pod, config_map, Object, Polled,
  PollReturns, State,
}

abbrev pub named : Bytes → ObjectMeta
named name = record { name = name; namespace = bytes "ci"; labels = none; resource_version = [] }

abbrev pub chrome_container : Container
chrome_container = record {
  name = bytes "chrome";
  image = bytes "chrome:75";
  args = bytes "http://chrome:9222" ∷ bytes "localhost" ∷ [];
  env = [];
  volume_mounts = [];
  rest = [];
}

abbrev pub chrome_labels : List (Bytes × Bytes)
chrome_labels = (bytes "app", bytes "chrome") ∷ []

abbrev pub chrome_selector : LabelSelector
chrome_selector = record { match_labels = some chrome_labels; match_expressions = [] }

abbrev pub chrome_template : PodTemplate
chrome_template = record {
  labels = some chrome_labels;
  containers = chrome_container ∷ [];
  volumes = [];
  rest = [];
}

abbrev pub chrome_deployment : Deployment
chrome_deployment = record {
  meta = named (bytes "chrome");
  replicas = none;
  selector = some chrome_selector;
  template = chrome_template;
  generation = 2;
  observed_generation = 2;
  updated_replicas = 1;
  available_replicas = 1;
  unavailable_replicas = 0;
  rest = [];
}

abbrev pub chrome_service : Service
chrome_service = record { meta = named (bytes "chrome"); selector = some chrome_labels; rest = [] }

abbrev pub chrome_lockdown : NetworkPolicy
chrome_lockdown = record {
  meta = named (bytes "chrome-lockdown");
  pod_selector = chrome_selector;
  rest = [];
}

abbrev pub smoke_job : Job
smoke_job = record {
  meta = named (bytes "chrome-smoke");
  containers = record chrome_container { args = bytes "localhost" ∷ [] } ∷ [];
  conditions = record { kind = job_complete; is_true = true } ∷ [];
  rest = [];
}

abbrev sample : (k : Kind) → Object k
sample deployment = chrome_deployment
sample service = chrome_service
sample network_policy = chrome_lockdown
sample job = smoke_job
sample pod = record {
  meta = named (bytes "collector");
  created = 0;
  running = true;
  containers = [];
  volumes = [];
  rest = [];
}
sample config_map = record { meta = named (bytes "policy"); content = [] }

abbrev once : Polled × Unit {0} → (Bool × Option Error) × Unit {0}
once ((b, ok true), w) = ((b, none), w)
once ((b, ok false), w) = ((b, some (record { kind = not_found; text = bytes "timeout" })), w)
once ((b, err e), w) = ((b, some e), w)

abbrev missing : Error
missing = record { kind = not_found; text = bytes "not found" }

abbrev pub ready_host : Host
ready_host = record {
  World = Unit {0};
  get = λ k ctx ns name w. (ok (sample k), w);
  create = λ k ctx ns o w. (ok tt, w);
  update = λ k ctx ns o w. (ok tt, w);
  delete = λ k ctx ns name foreground w. (err missing, w);
  patch_image = λ ctx ns name container image w. (ok tt, w);
  list_pods = λ ctx ns selector w. (ok (sample pod ∷ []), w);
  pod_logs = λ ctx ns name container w. (ok (bytes "User-Agent: Chrome", none), w);
  poll = λ ctx interval timeout cond v w. once (cond v w);
  read_file = λ path w. (ok [], w);
  unmarshal_yaml = λ k raw. ok (sample k);
  mkdir_all = λ path w. (none, w);
  kubectl_cp = λ ctx src local w. (none, w);
  join_path = λ dir name. name;
  dir_path = λ path. [];
  unmarshal_log = λ line. none;
}

abbrev pub start_state : State ready_host
start_state = record { world = tt; calls = [] }

once_returns :
    (p : Polled × Unit {0}) (b : Bool) (w : Unit {0})
    → once p ≡ ((b, none), w)
    → p ≡ ((b, ok true), w)
once_returns ((c, ok true), w') b w e = cc e
once_returns ((c, ok false), w') b w e = absurd (cc e)
once_returns ((c, err x), w') b w e = absurd (cc e)

pub ready_host-PollReturns : PollReturns ready_host
ready_host-PollReturns ctx interval timeout cond v b w w' e = (v, w, once_returns (cond v w) b w' e)

abbrev pub ready_io : BundleIo
ready_io = record {
  create = none;
  read_file = λ path. ok path;
  add = λ e. none;
  close_zip = none;
  close_file = none;
}

abbrev pub ready_env : Env
ready_env = record {
  host = ready_host;
  in_cluster_config = λ w. (err missing, w);
  ambient_config = λ w. (ok tt, w);
  new_for_config = λ w. (ok tt, w);
  mkdir_temp = λ pattern w. (ok (bytes "/tmp/frames"), w);
  remove_all = λ dir w. w;
  render_json = λ rep. ok (bytes "json");
  bundle_io = λ path w. (ready_io, w);
  comment = comment (λ s. s) (λ owner name pr body w. (none, w));
  upload = λ key content.
      upload (λ client bucket k body kind w. (none, w))
        (λ client bucket k w. (ok (bytes "https://bundle"), w))
        (tigris_uploader (bytes "client") (bytes "gubal")) key content (bytes "application/zip");
  error_text = λ e. bytes "error";
}

abbrev pub ready_cli : Cli
ready_cli = record {
  host = ready_host;
  build_config = λ path w. (ok tt, w);
  new_for_config = λ w. (ok tt, w);
  mkdir_temp = λ pattern w. (ok (bytes "/tmp/frames"), w);
  remove_all = λ dir w. w;
  render_json = λ rep. ok (bytes "json");
  bundle_io = λ path w. (ready_io, w);
  write_file = λ path content w. (none, w);
  print = λ text w. w;
  quote = λ s. s;
}
