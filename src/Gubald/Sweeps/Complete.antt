-- ===== src/Gubald/Sweeps/Complete.antt =====
-- The report that a request's sweep gives.
use gubal.Common.{List, ◌≡◌, refl, Bytes, Result, ok, err}
use gubal.Common.Errors.{Error}
use gubal.Chromesweep.Policies.{policies_from_map}
use gubal.Chromesweep.Report.{Report}
use gubal.Chromesweep.Config.{Browser}
use gubal.Chromesweep.Host.{State, attempt as attempt_on}
use gubal.Chromesweep.Host.Returns.{IfOk, Gives-attempt}
use gubal.Chromesweep.Sweep.Run.{run, passes}
use gubal.Chromesweep.Sweep.Results.{idents, matrix}
use gubal.Chromesweep.Sweep.Complete.{run-Complete}
use gubal.Gubald.Service.{SmokeTestRequest, BrowsersError, browsers_for, TwirpError}
use gubal.Gubald.Session.{Env, swept, ◌>>=◌}
use gubal.Gubald.Session.Emits.{Emits, Emits-bind}
use gubal.Gubald.Sweeps.{
  load_clientset, sweep_config, or_internal, in_client, make_dir, kept, execute_browsers,
  execute_sweep,
}

abbrev Asked : SmokeTestRequest → List Browser → Report → Type 0
Asked req bs rep = idents rep.results ≡ matrix bs (passes (policies_from_map req.policies))

abbrev Answers :
    SmokeTestRequest
    → Result BrowsersError (List Browser)
    → Result TwirpError (Report × Bytes)
    → Type 0
Answers req bs (ok (rep, dir)) = (cs : List Browser) × (bs ≡ ok cs) × Asked req cs rep
Answers req bs (err e) = Unit

module _ (env : Env) (req : SmokeTestRequest) where
  kept-Answers :
      (cs : List Browser) (dir : Bytes) (r : Result Error Report)
      → IfOk (Asked req cs) r
      → Emits (λ r _. Answers req (ok cs) r) (kept env dir r)
  unfolding kept
  kept-Answers cs dir (ok rep) q = record { at = λ s. (cs, refl, q) }
  kept-Answers cs dir (err e) q = record { at = λ s. tt }

  ran :
      (cs : List Browser) (dir : Bytes) (s : State env.host)
      → IfOk (Asked req cs) (run env.host (sweep_config req cs) dir s).0
  unfolding attempt_on
  ran cs dir s = (Gives-attempt _ _ (run-Complete env.host (sweep_config req cs) dir)).at s _ refl

  execute_browsers-Answers :
      (bs : Result BrowsersError (List Browser))
      → Emits (λ r _. Answers req bs r) (execute_browsers env req bs)
  unfolding execute_browsers
  execute_browsers-Answers (err e) = record { at = λ s. tt }
  execute_browsers-Answers (ok cs) = record {
    at = λ s. (client (in_client env (load_clientset env s.world).0)).at _;
  }
    where
      client :
          (r : Result Error Unit)
          → Emits
              (λ r _. Answers req (ok cs) r)
              (or_internal env r >>= λ _. make_dir env >>= λ dir.
                swept (run env.host (sweep_config req cs) dir) >>= kept env dir)
      client (err e) = record { at = λ s. tt }
      client (ok _) = record {
        at = λ s.
            (Emits-bind {P = λ _ _. Unit} (λ r _. Answers req (ok cs) r) (make_dir env) _
                (record { at = λ s. tt })
                (λ dir es q. record { at = λ s. (kept-Answers cs dir _ (ran cs dir s)).at _ })
                (λ e es q. tt)).at
              s;
      }

Answers-of_ok :
    (req : SmokeTestRequest) (bs : Result BrowsersError (List Browser))
    (r : Result TwirpError (Report × Bytes)) (rep : Report) (dir : Bytes)
    → Answers req bs r
    → r ≡ ok (rep, dir)
    → (cs : List Browser) × (bs ≡ ok cs) × Asked req cs rep
Answers-of_ok req bs (ok (rep', dir')) rep dir (cs, e, q) h =
    let same : rep' ≡ rep = cc h in (cs, e, rw (← same) q)
Answers-of_ok req bs (err e) rep dir a h = absurd (cc h)

-- A sweep that a request gives a report of has one result for each of its policies, sorted by name,
-- and each browser and version that it asks for, and no others.
pub execute_sweep_complete :
    (env : Env) (req : SmokeTestRequest) (s : State env.host) {rep : Report} {dir : Bytes}
    → (execute_sweep env req s).result ≡ ok (rep, dir)
    → (bs : List Browser) × (browsers_for req ≡ ok bs)
      × (idents rep.results ≡ matrix bs (passes (policies_from_map req.policies)))
unfolding execute_sweep
execute_sweep_complete env req s e =
    Answers-of_ok req (browsers_for req) _ _ _
      ((execute_browsers-Answers env req (browsers_for req)).at s) e
