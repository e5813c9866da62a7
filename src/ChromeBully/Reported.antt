-- ===== src/ChromeBully/Reported.antt =====
-- What capturedFramePath of chromesweep reads from the log of a run of cmd/chrome-bully.
use gubal.Common.{
  ℕ, ◌<◌, true, false, List, [], ◌∷◌, ◌++◌, Option, some, ◌≡◌, ◌≢◌, ◌⊎◌, inl, inr, refl, sym, ap,
  ◌∙◌, arith, Bytes, bytes, ok, err, All, Bool-cases,
}
use gubal.Common.Int.{ℤ, pos, negsuc}
use gubal.Common.Errors.{Error}
use gubal.ChromeBully.{frame_name}
use gubal.Chromesweep.Logs.{LogLine, captured_frame_path}
use gubal.ChromeBully.Console.{info, error, LogRecord}
use gubal.ChromeBully.Driver.{Driver, Outcome, returned, failed, starved, enabled}
use gubal.ChromeBully.Capture.{Flags, positive}
use gubal.ChromeBully.Main.{captured_record, fatal_record, run, Line, shown, exit_of, main}
use gubal.ChromeBully.Capture.Rules.{Quiet}
use gubal.ChromeBully.Capture.Ends.{Clock, Written}
use gubal.ChromeBully.Main.Once.{Ended, run_once}
use gubal.ChromeBully.Reading.{Format, log_text, Fits, reads_last, captured_verdict, fatal_verdict}

shown-Quiet : (least : ℤ) (rs : List LogRecord) → All Quiet rs → All Quiet (shown least rs)
shown-Quiet least [] h = tt
shown-Quiet least (r ∷ rs) (q, h) = elim (Bool-cases (enabled least r.level)) [
  | inl e ↦ rw e (q, shown-Quiet least rs h)
  | inr e ↦ rw e (shown-Quiet least rs h)
]

-- a record that is shown stands last
shown_last :
    (least : ℤ) (rs : List LogRecord) (r : LogRecord)
    → enabled least r.level ≡ true
    → shown least (rs ++ r ∷ []) ≡ shown least rs ++ r ∷ []
shown_last least [] r e = rw e refl
shown_last least (x ∷ rs) r e = elim (Bool-cases (enabled least x.level)) [
  | inl b ↦ rw b (ap (λ s. x ∷ s) (shown_last least rs r e))
  | inr b ↦ rw b (shown_last least rs r e)
]

enabled_error : (least : ℤ) → enabled least info ≡ true → enabled least error ≡ true
enabled_error (pos n) h = ground arith
enabled_error (negsuc n) h = refl

main_ok :
    (d : Driver) (f : Flags) (evaluations rounds : ℕ) (w : d.World) {least : ℤ}
    → d.parse_level f.slog_level ≡ ok least
    → main d f evaluations rounds w
      ≡ (let r = run d f evaluations rounds w in exit_of {d = d} least r.outcome r.world r.lines)
unfolding main
main_ok d f evaluations rounds w h = rw (main, h) refl

frame_name-ne : (version stamp : Bytes) → frame_name version stamp ≢ []
unfolding frame_name
frame_name-ne version stamp e = cc e

module _ (encode encode_plain : LogRecord → Bytes) (unmarshal : Bytes → Option LogLine)
    (coerced : Bytes → Bytes) (format : Format encode unmarshal coerced) where
  module _ (d : Driver) (f : Flags) where
    -- what the end of the process and the path that chromesweep reads from its lines say
    abbrev pub Reported : Outcome Unit → Option ℕ → List Line → Type 0
    Reported o code lines =
        let read = captured_frame_path unmarshal (log_text encode encode_plain lines) in
        ((code ≡ some 0)
          × (path : Bytes) × (version : Bytes) × Written d f version path
          × (read ≡ ok (coerced path)))
        ⊎ ((code ≡ some 1)
            × (e : Error) × (o ≡ failed e)
            × (read ≡ err (bytes "chrome-bully failed: " ++ coerced e.text)))

    reported :
        (least : ℤ)
        → enabled least info ≡ true
        → ((a b : Bytes) → b ≢ [] → d.join_path a b ≢ [])
        → (o : Outcome Unit) (w : d.World) (rs : List LogRecord) → Ended d f o rs
        → All (Fits encode) (exit_of {d = d} least o w rs).lines
        → Reported o (exit_of {d = d} least o w rs).code (exit_of {d = d} least o w rs).lines
    reported least shows joins (returned _) w rs (path, version, quiet, written, e, q) fits =
        let (stamp, buf, v, named, done) = written in
        let there : path ≢ [] = λ empty.
          joins f.out_dir (frame_name version stamp) (frame_name-ne version stamp)
            (sym named ∙ empty) in
        inl (
          refl,
          path,
          version,
          written,
          reads_last encode encode_plain unmarshal coerced format (shown least rs)
              (shown least quiet) (captured_record path)
              (ap (shown least) e ∙ shown_last least quiet (captured_record path) shows)
              (shown-Quiet least quiet q) fits
              (captured_verdict encode encode_plain unmarshal coerced format path there),
        )
    reported least shows joins (failed e) w rs q fits = inr (
      refl,
      e,
      refl,
      reads_last encode encode_plain unmarshal coerced format
          (shown least (rs ++ fatal_record e ∷ [])) (shown least rs) (fatal_record e)
          (shown_last least rs (fatal_record e) (enabled_error least shows))
          (shown-Quiet least rs q) fits
          (fatal_verdict encode encode_plain unmarshal coerced format e),
    )
    reported least shows joins starved w rs h fits = absurd h

    -- Where the level shows Info, -interval is not positive, joining a name to a directory gives a
    -- path, the time of a capture runs out as Clock says, the evaluations are more than it allows, and
    -- a JSON line is read back as Format says, the process ends; and if its lines fit the reader's
    -- buffer, then either its code is 0 and what chromesweep reads is the path of a frame that was
    -- written under the name for a version, or its code is 1 and what chromesweep reads is the error
    -- that the run returned, whatever the page's console said in between.
    pub captured_frame_path-main :
        {limit : ℕ} {least : ℤ}
        → Clock d f limit
        → d.parse_level f.slog_level ≡ ok least
        → enabled least info ≡ true
        → positive f.interval ≡ false
        → ((a b : Bytes) → b ≢ [] → d.join_path a b ≢ [])
        → (evaluations rounds : ℕ) → limit < evaluations
        → (w : d.World) → All (Fits encode) (main d f evaluations rounds w).lines
        → Reported
            (run d f evaluations rounds w).outcome
            (main d f evaluations rounds w).code
            (main d f evaluations rounds w).lines
    captured_frame_path-main {least = least} clock level shows once joins evaluations rounds enough
          w fits =
        let r = run d f evaluations rounds w in
        let same = main_ok d f evaluations rounds w level in
        let fits' = rw same at fits in
        rw same (
          reported least shows joins r.outcome r.world r.lines
            (run_once d f clock evaluations rounds enough once w) fits')
