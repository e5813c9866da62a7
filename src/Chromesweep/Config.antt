-- ===== src/Chromesweep/Config.antt =====
-- chromesweep/config.go. Durations are in seconds.
use gubal.Common.{ℕ, List, [], ◌∷◌, Bytes, bytes, String, map}
use gubal.Chromesweep.Policies.{Policy}

pub record Browser : Type 0 where
  pub name : Bytes
  pub image_repo : Bytes
  pub deployment : Bytes
  pub container : Bytes
  pub job_name : Bytes
  pub deployment_manifest : Bytes
  pub service_manifest : Bytes
  pub network_policy_manifest : Bytes
  pub job_manifest : Bytes
  pub versions : List Bytes

abbrev texts : List String → List Bytes
texts = map bytes

abbrev pub chrome_browser : Browser
chrome_browser = record {
  name = bytes "chrome";
  image_repo = bytes "ghcr.io/techarohq/gubal/chrome";
  deployment = bytes "chrome";
  container = bytes "chrome";
  job_name = bytes "chrome-smoke";
  deployment_manifest = bytes "k8s/deployment.yaml";
  service_manifest = bytes "k8s/service.yaml";
  network_policy_manifest = bytes "k8s/networkpolicy.yaml";
  job_manifest = bytes "k8s/smoke-job.yaml";
  versions = texts (
      "75" ∷ "80" ∷ "85" ∷ "90" ∷ "95" ∷ "100" ∷ "105" ∷ "110" ∷ "115" ∷ "120" ∷ "125" ∷ "130"
      ∷ "135" ∷ "140" ∷ "145" ∷ "150" ∷ []);
}

abbrev pub firefox_browser : Browser
firefox_browser = record {
  name = bytes "firefox";
  image_repo = bytes "ghcr.io/techarohq/gubal/firefox";
  deployment = bytes "firefox";
  container = bytes "firefox";
  job_name = bytes "firefox-smoke";
  deployment_manifest = bytes "k8s/firefox/deployment.yaml";
  service_manifest = bytes "k8s/firefox/service.yaml";
  network_policy_manifest = bytes "k8s/firefox/networkpolicy.yaml";
  job_manifest = bytes "k8s/firefox/smoke-job.yaml";
  versions = texts ("146" ∷ "147" ∷ "148" ∷ "149" ∷ "150" ∷ "151" ∷ "152" ∷ []);
}

pub record Config : Type 0 where
  pub namespace : Bytes
  pub anubis_manifest : Bytes
  pub anubis_container : Bytes
  pub anubis_image : Bytes
  pub parallelism : ℕ
  pub collector_pvc : Bytes
  pub out_dir : Bytes
  pub ready_timeout : ℕ
  pub job_timeout : ℕ
  pub browsers : List Browser
  pub policies : List Policy

abbrev pub default_config : Config
default_config = record {
  namespace = bytes "ci";
  anubis_manifest = bytes "k8s/anubis/anubis.yaml";
  anubis_container = bytes "anubis";
  anubis_image = [];
  parallelism = 8;
  collector_pvc = bytes "chrome-bully-data";
  out_dir = bytes "./var/sweep";
  ready_timeout = 180;
  job_timeout = 240;
  browsers = chrome_browser ∷ firefox_browser ∷ [];
  policies = [];
}
