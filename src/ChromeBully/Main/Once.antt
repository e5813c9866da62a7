-- ===== src/ChromeBully/Main/Once.antt =====
-- How run ends where -interval is not positive: with the line of the frame or an error, after lines from which
-- chromesweep reads nothing.
use gubal.Common.{
  ℕ, ◌<◌, Bool, true, false, List, [], ◌∷◌, ◌++◌, ◌≡◌, refl, Bytes, bytes, ◌==◌, if◌then◌else◌,
  Result, ok, err, All, All-append, append_assoc, ap, sym, ◌∙◌,
}
use gubal.Strings.{ascii_lower}
use gubal.ChromeBully.{HeaderError, parse_headers, chrome_version}
use gubal.ChromeBully.Console.{LogRecord}
use gubal.ChromeBully.Driver.{
  Driver, Outcome, returned, failed, starved, Ran, D, call, check, checked, continue, ◌>>=◌,
}
use gubal.ChromeBully.Capture.{Flags, positive, capture}
use gubal.ChromeBully.Main.{
  header_map, log_connected, log_captured, capture_loop, capture_once, captured_record, run,
}
use gubal.ChromeBully.Capture.Rules.{
  Any, Fine, Quiet, Runs, Runs-pure, Runs-raise, Runs-call, Runs-checked, Runs-check,
}
use gubal.ChromeBully.Capture.Ends.{Clock, Written, capture-Runs}

module _ (d : Driver) (f : Flags) where
  -- what the end of a run and its lines say
  abbrev pub Ended : Outcome Unit → List LogRecord → Type 0
  Ended (returned _) rs =
      (path : Bytes) × (version : Bytes) × (quiet : List LogRecord) × Written d f version path
      × (rs ≡ quiet ++ captured_record path ∷ [])
      × All Quiet quiet
  Ended (failed e) rs = All Quiet rs
  Ended starved rs = ⊥

  record Says (Pre : d.World → Type 0) (m : D d Unit) : Type 0 where
    pub at : (w : d.World) → Pre w → Ended (m w).outcome (m w).lines

  later :
      (o : Outcome Unit) (xs rs : List LogRecord) → All Quiet xs → Ended o rs → Ended o (xs ++ rs)
  later (returned _) xs rs q (path, version, quiet, written, e, all) = (
    path,
    version,
    xs ++ quiet,
    written,
    ap (λ r. xs ++ r) e ∙ sym (append_assoc xs quiet _),
    All-append _ xs quiet q all,
  )
  later (failed e) xs rs q all = All-append _ xs rs q all
  later starved xs rs q e = e

  continue-Says :
      {A : Type 0} {P : A → d.World → Type 0} (r : Ran d A) (o : Outcome A) (k : A → D d Unit)
      → Fine P o r.world
      → All Quiet r.lines
      → ((a : A) → Says (P a) (k a))
      → Ended (continue r o k).outcome (continue r o k).lines
  continue-Says r (returned a) k p q says =
      later (k a r.world).outcome r.lines _ q ((says a).at r.world p)
  continue-Says r (failed e) k p q says = q
  continue-Says r starved k p q says = p

  Says-bind :
      {A : Type 0} {Pre : d.World → Type 0} {P : A → d.World → Type 0} (m : D d A)
      (k : A → D d Unit)
      → Runs Pre P m
      → ((a : A) → Says (P a) (k a))
      → Says Pre (m >>= k)
  Says-bind m k r says = record {
    at = λ w p. let (p', q) = r.at w p in continue-Says (m w) (m w).outcome k p' q says;
  }

  header_map-Runs :
      (r : Result HeaderError (List (Bytes × Bytes))) → Runs Any (λ _. Any) (header_map d f r)
  header_map-Runs (ok headers) = Runs-pure _ headers (λ w p. tt)
  header_map-Runs (err e) = Runs-raise _ _

  once-Says :
      {limit : ℕ}
      → Clock d f limit
      → (evaluations : ℕ) → limit < evaluations
      → (headers : List (Bytes × Bytes)) (version : Bytes)
      → Says Any (capture_once d f evaluations headers version)
  once-Says clock evaluations enough headers version =
      Says-bind (capture d f evaluations headers version) (log_captured d f)
        (capture-Runs d f clock evaluations enough headers version)
        (λ path. record { at = λ w p. (path, version, [], p, refl, tt) })

  last-Says :
      (b : Bool) (loop once : D d Unit)
      → b ≡ false
      → Says Any once
      → Says Any (if b then loop else once)
  last-Says true loop once e s = cc
  last-Says false loop once e s = s

  connected_quiet :
      (product : Bytes) (headers : List (Bytes × Bytes))
      → Runs Any (λ _. Any) (log_connected d f product headers)
  unfolding ◌==◌ ascii_lower
  connected_quiet product headers = record { at = λ w p. (tt, ((refl, refl), tt)) }

  -- What one frame's run ends with, where the fuel is more than the time of a capture.
  pub run_once :
      {limit : ℕ}
      → Clock d f limit
      → (evaluations rounds : ℕ) → limit < evaluations
      → positive f.interval ≡ false
      → (w : d.World)
      → Ended (run d f evaluations rounds w).outcome (run d f evaluations rounds w).lines
  unfolding run
  run_once clock evaluations rounds enough once w =
      (Says-bind (header_map d f (parse_headers [] f.headers)) _
          (header_map-Runs (parse_headers [] f.headers))
          (λ headers.
            Says-bind (call (d.mkdir_all f.out_dir)) _
              (Runs-call (λ _. Any) (d.mkdir_all f.out_dir) (λ w p. tt))
              (λ made.
                Says-bind (check (bytes "cannot create out-dir " ++ d.quote f.out_dir) made) _
                  (Runs-check (λ _. Any) (bytes "cannot create out-dir " ++ d.quote f.out_dir) made
                    (λ w e p. tt))
                  (λ _.
                    Says-bind (call (d.get_version f.cdp_url)) _
                      (Runs-call (λ _. Any) (d.get_version f.cdp_url) (λ w p. tt))
                      (λ got.
                        Says-bind (checked (bytes "cannot reach chrome at " ++ f.cdp_url) got) _
                          (Runs-checked (λ _. Any) (bytes "cannot reach chrome at " ++ f.cdp_url)
                            got (λ a w e p. tt))
                          (λ product.
                            Says-bind (log_connected d f product headers) _
                              (connected_quiet product headers)
                              (λ _.
                                last-Says (positive f.interval)
                                  (capture_loop d f evaluations rounds headers
                                    (chrome_version product))
                                  _ once
                                  (once-Says clock evaluations enough headers
                                    (chrome_version product))))))))).at
        w tt
