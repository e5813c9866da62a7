-- ===== src/Examples/Objects.antt =====
-- The theorems on retargeted manifests and on the wiring of a policy.
use gubal.Common.{List, [], ◌∷◌, Bytes, ==_iff, arith, some, ◌≡◌, ◌≢◌, refl, bytes, ◌==◌}
use gubal.Chromesweep.Objects.{Deployment, NetworkPolicy, op_exists, get_key, made, PodTemplate}
use gubal.Chromesweep.Retarget.{
  app, filled, retarget_deployment, retarget_service, retarget_network_policy,
}
use gubal.Chromesweep.Retarget.Selects.{Selects, SelectsPod, retarget-Selects, retarget_separate}
use gubal.Chromesweep.Cluster.Anubis.{wire_policy}
use gubal.Chromesweep.Cluster.Wiring.{wire_policy_swap}
use gubal.Examples.Hosts.{
  chrome_template, chrome_labels, chrome_deployment, chrome_service, chrome_lockdown,
}

abbrev chrome_140 : Deployment
chrome_140 =
    retarget_deployment chrome_deployment (bytes "chrome-140") (bytes "chrome") (bytes "chrome:140")

-- a policy that also wants the pods to have a tier
abbrev tiered_labels : List (Bytes × Bytes)
tiered_labels = (bytes "tier", bytes "browser") ∷ chrome_labels

abbrev tiered_lockdown : NetworkPolicy
tiered_lockdown = record chrome_lockdown {
  pod_selector = record {
    match_labels = some chrome_labels;
    match_expressions = record { key = bytes "tier"; operator = op_exists; values = [] } ∷ [];
  };
}

abbrev tiered_deployment : Deployment
tiered_deployment = record chrome_deployment {
  template = record chrome_template { labels = some tiered_labels };
}

abbrev tiered_140 : Deployment
tiered_140 =
    retarget_deployment tiered_deployment (bytes "chrome-140") (bytes "chrome") (bytes "chrome:140")

own_app : (k v : Bytes) → get_key k chrome_labels ≡ some v → get_key k tiered_labels ≡ some v
unfolding get_key
own_app k v e = ground (arith, ==_iff (bytes "app") k, ==_iff (bytes "tier") k)

has_tier : get_key (bytes "tier") tiered_labels ≡ some (bytes "browser")
unfolding get_key ◌==◌
has_tier = refl

tier_ne_app : bytes "tier" ≢ app
tier_ne_app e = cc e

retarget-Selects_example :
    SelectsPod (filled tiered_140.selector) (made tiered_140.template.labels)
    × Selects
        (made (retarget_service chrome_service (bytes "chrome-140")).selector)
        (made tiered_140.template.labels)
    × SelectsPod
        (retarget_network_policy tiered_lockdown (bytes "chrome-140")).pod_selector
        (made tiered_140.template.labels)
retarget-Selects_example =
    retarget-Selects tiered_deployment chrome_service tiered_lockdown (bytes "chrome-140")
      (bytes "chrome") (bytes "chrome:140") tt (tier_ne_app, tt) (own_app, tt) own_app
      (own_app, ((bytes "browser", has_tier), tt))

abbrev chrome_75 : Deployment
chrome_75 =
    retarget_deployment chrome_deployment (bytes "chrome-75") (bytes "chrome") (bytes "chrome:75")

names_differ : bytes "chrome-140" ≢ bytes "chrome-75"
names_differ e = cc e

retarget_separate_example :
    (¬ Selects (made (filled chrome_140.selector).match_labels) (made chrome_75.template.labels))
    × (¬ Selects
        (made (retarget_service chrome_service (bytes "chrome-140")).selector)
        (made chrome_75.template.labels))
    × (¬ Selects
        (made
          (retarget_network_policy chrome_lockdown (bytes "chrome-140")).pod_selector.match_labels)
        (made chrome_75.template.labels))
retarget_separate_example =
    retarget_separate chrome_deployment chrome_deployment chrome_service chrome_lockdown
      (bytes "chrome-140") (bytes "chrome-75") (bytes "chrome") (bytes "chrome:140")
      (bytes "chrome") (bytes "chrome:75") names_differ

wired : (t : PodTemplate) × (wire_policy (bytes "chrome") (bytes "old") chrome_template ≡ some t)
unfolding wire_policy ◌==◌
wired = (_, refl)

wire_policy_swap_example :
    wire_policy (bytes "chrome") (bytes "new") wired.0
    ≡ wire_policy (bytes "chrome") (bytes "new") chrome_template
wire_policy_swap_example =
    wire_policy_swap (bytes "chrome") (bytes "old") (bytes "new") chrome_template wired.1
