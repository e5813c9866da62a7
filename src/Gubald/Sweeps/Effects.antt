-- ===== src/Gubald/Sweeps/Effects.antt =====
-- The directories, comments and uploads of a request.
use gubal.Common.{List, [], ◌∷◌, ◌++◌, ◌≡◌, refl, ap, ◌⊎◌, inl, inr, Bytes, Result, ok, err}
use gubal.Common.Int.{ℤ}
use gubal.Common.Errors.{Error}
use gubal.Chromesweep.Report.{Report, all_passed}
use gubal.Chromesweep.Report.Markdown.{render_markdown}
use gubal.Chromesweep.Config.{Browser}
use gubal.Chromesweep.Sweep.Run.{run}
use gubal.Gubald.Comments.{body_ack, body_result, body_run_error}
use gubal.Gubald.Service.{
  SmokeTestRequest, SubmitRequest, BrowsersError, browsers_for, TwirpError, version_count,
}
use gubal.Gubald.Session.{
  Env, Effect, made_dir, removed_dir, posted, uploaded, pure, swept, emit, ◌>>=◌, ◌>>◌,
}
use gubal.Gubald.Session.Emits.{Post, Emits, Emits-bind}
use gubal.Gubald.Sweeps.{
  load_clientset, or_internal, make_dir, remove_dir, kept, execute_browsers, execute_sweep,
  in_client, sweep_config, run_sweep, bundle_key,
}

-- the directory of a sweep that is returned, and one that a failed sweep has removed
abbrev pub Executed : Post (Report × Bytes)
Executed (ok (rep, dir)) es = es ≡ made_dir dir ∷ []
Executed (err e) es = (es ≡ []) ⊎ ((dir : Bytes) × (es ≡ made_dir dir ∷ removed_dir dir ∷ []))

-- the link of an upload that was made or not
abbrev Uploads : ℤ → Bytes → Post Bytes
Uploads pr id (ok url) es = (es ≡ []) ⊎ (es ≡ uploaded (bundle_key pr id) ∷ [])
Uploads pr id (err e) es = ⊥

module _ (env : Env) where
  abbrev Made : Post Bytes
  Made (ok dir) es = es ≡ made_dir dir ∷ []
  Made (err e) es = es ≡ []

  made :
      (r : Result Error Bytes)
      → Emits Made (or_internal env r >>= λ dir. emit (made_dir dir) >> pure dir)
  made (ok dir) = record { at = λ s. refl }
  made (err e) = record { at = λ s. refl }

  make_dir-Emits : Emits Made (make_dir env)
  unfolding make_dir
  make_dir-Emits = record { at = λ s. (made (env.mkdir_temp _ s.world).0).at _ }

  kept-Emits :
      (dir : Bytes) (r : Result Error Report)
      → Emits (λ x es. Executed x (made_dir dir ∷ es)) (kept env dir r)
  unfolding kept remove_dir
  kept-Emits dir (ok rep) = record { at = λ s. refl }
  kept-Emits dir (err e) = record { at = λ s. inr (dir, refl) }

  execute_browsers-Emits :
      (req : SmokeTestRequest) (bs : Result BrowsersError (List Browser))
      → Emits Executed (execute_browsers env req bs)
  unfolding execute_browsers
  execute_browsers-Emits req (err e) = record { at = λ s. inl refl }
  execute_browsers-Emits req (ok bs) = record {
    at = λ s. (client (in_client env (load_clientset env s.world).0)).at _;
  }
    where
      client :
          (r : Result Error Unit)
          → Emits Executed (
              or_internal env r >>= λ _. make_dir env >>= λ dir.
              swept (run env.host (sweep_config req bs) dir) >>= kept env dir)
      client (err e) = record { at = λ s. inl refl }
      client (ok _) = record {
        at = λ s.
            (Emits-bind Executed (make_dir env) _ make_dir-Emits
                (λ dir es q. record { at = λ s. rw q ((kept-Emits dir _).at _) })
                (λ e es q. inl q)).at
              s;
      }

  execute_sweep-Emits : (req : SmokeTestRequest) → Emits Executed (execute_sweep env req)
  unfolding execute_sweep
  execute_sweep-Emits req = execute_browsers-Emits req (browsers_for req)

  -- a synchronous run leaves no directory
  abbrev pub Balanced : List Effect → Type 0
  Balanced es = (es ≡ []) ⊎ ((dir : Bytes) × (es ≡ made_dir dir ∷ removed_dir dir ∷ []))

  -- A synchronous run makes one directory at most, and has removed it when it returns, on every path.
  pub run_sweep-Balanced :
      (req : SmokeTestRequest) → Emits (λ _ es. Balanced es) (run_sweep env req)
  unfolding run_sweep remove_dir
  run_sweep-Balanced req =
      Emits-bind _ (execute_sweep env req) _ (execute_sweep-Emits req)
        (λ (rep, dir) es q. record { at = λ s. inr (dir, ap (λ xs. xs ++ removed_dir dir ∷ []) q) })
        (λ e es q. q)

  abbrev said : SubmitRequest → Bytes → Effect
  said req body = posted req.repo req.pr body

  -- what a background run does: it acknowledges the request; where the sweep fails it says so, and
  -- the directory is gone by then; else the bundle may be uploaded, the result is posted, and the
  -- directory is removed
  pub data Conversation (req : SubmitRequest) (es : List Effect) : Type 0 where
    failed :
        (e : TwirpError) (xs : List Effect)
        → Balanced xs
        → es
          ≡ said req (body_ack req.sha (version_count req.test))
            ∷ (xs ++ said req (body_run_error req.sha (env.error_text e)) ∷ [])
        → Conversation req es
    reported :
        (rep : Report) (url dir : Bytes) (ys : List Effect)
        → (ys ≡ []) ⊎ (ys ≡ uploaded (bundle_key req.pr req.test.id) ∷ [])
        → es
          ≡ said req (body_ack req.sha (version_count req.test))
            ∷ made_dir dir
            ∷ (ys
                ++ said req (body_result (all_passed rep) (render_markdown rep) req.sha url)
                  ∷ removed_dir dir
                  ∷ [])
        → Conversation req es

  abbrev pub Returned : (List Effect → Type 0) → Post Unit
  Returned P (ok _) es = P es
  Returned P (err e) es = ⊥
