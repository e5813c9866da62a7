-- ===== src/Examples/Sweeps.antt =====
-- The theorems on sweeps and on the cluster, on the host that is always ready.
use gubal.Chromesweep.Sweep.Pool.{Reach}
use gubal.Common.Errors.{Error}
use gubal.Chromesweep.Sweep.Pool.Refine.{slots_refine}
use gubal.Common.{Result, sym, ap, ◌∙◌}
use gubal.Chromesweep.Sweep.Run.{sweep_versions}
use gubal.Chromesweep.Sweep.Results.{sweep_one-Returns}
use gubal.Chromesweep.Sweep.Pool.Slots.{
  Slots, sweeping, holding, counted, stored, starts, stores, Sweeps, none_started, moved, InOrder,
}
use gubal.Chromesweep.Host.{job, deployment, State}
use gubal.Chromesweep.Sweep.{Pass, sweep_one}
use gubal.Common.{List, [], ◌∷◌, ◌++◌, ◌≡◌, refl, Bytes, bytes, ok, arith, ◌≤◌, ◌⊎◌, ◌+◌, All}
use gubal.Chromesweep.Config.{Config, default_config, chrome_browser}
use gubal.Chromesweep.Retarget.{versioned_name}
use gubal.Chromesweep.Report.{SweepResult, pass}
use gubal.Chromesweep.Host.Returns.{Returns}
use gubal.Chromesweep.Cluster.Replace.{teardown_calls}
use gubal.Chromesweep.Sweep.Run.{sweep_policies}
use gubal.Chromesweep.Sweep.Results.{idents, matrix, sweep_policies_complete}
use gubal.Chromesweep.Sweep.Teardown.{OnVersion, sweep_one_teardown}
use gubal.Chromesweep.Sweep.Pool.{
  Pool, Step, IsDone, bound, places, remaining, empty, start, begin, next, pool_progress,
}
use gubal.Examples.Hosts.{
  chrome_deployment, chrome_service, chrome_lockdown, smoke_job, ready_host, start_state,
}

abbrev small_config : Config
small_config = record default_config {
  browsers = chrome_browser ∷ [];
  policies = record { name = bytes "strict"; content = bytes "bots: []" } ∷ [];
  anubis_image = bytes "anubis:edge";
}

abbrev chrome_pass : Pass
chrome_pass = record {
  cfg = small_config;
  browser = chrome_browser;
  base = record {
    deployment = chrome_deployment;
    service = chrome_service;
    netpol = chrome_lockdown;
    job = smoke_job;
  };
  frames_dir = bytes "frames";
  policy = bytes "strict";
}

abbrev chrome_75 : Bytes
chrome_75 = versioned_name (bytes "chrome") (bytes "75")

abbrev smoke_75 : Bytes
smoke_75 = versioned_name (bytes "chrome-smoke") (bytes "75")

sweep_one_teardown_example :
    (cs : List _) × ((sweep_one ready_host chrome_pass (bytes "75") start_state).1.calls
      ≡ [] ++ (cs ++ teardown_calls chrome_75 smoke_75))
    × All (OnVersion chrome_75 smoke_75) cs
sweep_one_teardown_example = sweep_one_teardown ready_host chrome_pass (bytes "75") start_state

sweep_policies_complete_example :
    Returns
      (λ rs. idents rs ≡ matrix small_config.browsers small_config.policies)
      (sweep_policies ready_host small_config
        (bytes "anubis")
        (bytes "frames")
        small_config.policies)
sweep_policies_complete_example =
    sweep_policies_complete ready_host small_config (bytes "anubis") (bytes "frames")
      small_config.policies

abbrev one_started : Pool
one_started = record { started = 1; running = 1; leaving = 0; left = 0 }

one_started-Reach : Reach 3 2 one_started
one_started-Reach = next begin (start empty (omega arith) (unfold bound in omega arith))

pool_progress_example :
    (places one_started ≤ bound 2)
    × ((IsDone 3 2 one_started) ⊎ ((q : Pool) × Step 3 2 one_started q))
    × ((q : Pool) → Step 3 2 one_started q → remaining 3 2 q + 1 ≡ remaining 3 2 one_started)
pool_progress_example = pool_progress 3 2 one_started-Reach

abbrev Tagged : Bytes → SweepResult → Type 0
Tagged t r = r.tag ≡ t

abbrev of_tag : Bytes → SweepResult
of_tag t = record {
  policy = bytes "strict";
  browser = bytes "chrome";
  tag = t;
  status = pass;
  browser_version = [];
  reported_ua = [];
  frame_path = [];
  detail = [];
  logs = [];
}

abbrev two_tags : List Bytes
two_tags = bytes "75" ∷ bytes "80" ∷ []

abbrev second_first : Slots
second_first = record {
  queue = [];
  slots = sweeping (bytes "75") ∷ holding (bytes "80") (of_tag (bytes "80")) ∷ [];
}

second_first-Sweeps : Sweeps Tagged 2 two_tags second_first
second_first-Sweeps =
    moved
      (moved
        (moved none_started
          (starts (bytes "75") (bytes "80" ∷ []) [] (unfold bound in omega arith)))
        (starts (bytes "80") [] (sweeping (bytes "75") ∷ []) (unfold bound in omega arith)))
      (stores (bytes "80") (of_tag (bytes "80")) [] (sweeping (bytes "75") ∷ []) [] refl)

sweep_one-Tagged :
    (t : Bytes) (s : State ready_host) (r : SweepResult)
    → (sweep_one ready_host chrome_pass t s).0 ≡ ok r
    → Tagged t r
sweep_one-Tagged t s r e =
    let (a, e', about) = (sweep_one-Returns ready_host chrome_pass t).at s in
    let same : ◌≡◌ {A = Result Error SweepResult} (ok a) (ok r) = sym e' ∙ e in
    let same' : a ≡ r = cc same in
    ap (λ (x : SweepResult). x.tag) (sym same') ∙ ap (λ (i : Bytes × Bytes × Bytes). i.2) about

slots_refine_example :
    Reach 2 2 (counted second_first.slots)
    × (IsDone 2 2 (counted second_first.slots)
        → InOrder Tagged 2 two_tags (stored second_first.slots))
    × ((w : State ready_host) (rs : List SweepResult)
        → (sweep_versions ready_host chrome_pass two_tags w).0 ≡ ok rs
        → InOrder Tagged 2 two_tags rs)
slots_refine_example =
    slots_refine Tagged 2 ready_host chrome_pass sweep_one-Tagged two_tags second_first-Sweeps
