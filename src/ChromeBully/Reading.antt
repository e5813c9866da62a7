-- ===== src/ChromeBully/Reading.antt =====
-- The JSON lines of chrome-bully and what capturedFramePath of chromesweep makes of them. The handler
-- of log/slog and json.Unmarshal are parameters.
use gubal.Common.{
  ◌<◌, true, false, List, [], ◌∷◌, ◌++◌, Option, none, some, ◌≡◌, ◌≢◌, inl, inr, refl, ap, ◌∙◌,
  arith, Bytes, bytes, ◌==◌, ==_iff, Result, ok, err, map, length, All, Lacks, Option-cases,
}
use gubal.Common.Errors.{Error}
use gubal.Strings.Lines.Printed.{print_lines, Scans, scan_lines-print_lines}
use gubal.Chromesweep.Logs.{
  LogLine, verdict, bully_token_size, captured_frame_path, captured_frame_path_decided,
}
use gubal.ChromeBully.Console.{LogRecord}
use gubal.ChromeBully.Main.{captured_record, fatal_record, Line, json, plain}
use gubal.ChromeBully.Capture.Rules.{decides, clear_msg, Quiet}

-- What is known of the JSON line of a record and of reading it: it is one line; a msg of printable
-- ASCII comes back, where no attribute has its key; a text comes back as `coerced`, that is, with what
-- is not valid UTF-8 replaced.
pub record Format (encode : LogRecord → Bytes) (unmarshal : Bytes → Option LogLine)
    (coerced : Bytes → Bytes) : Type 0 where
  pub one_line : (r : LogRecord) → Lacks 10 (encode r) × Lacks 13 (encode r)
  pub msg :
      (r : LogRecord) {l : LogLine}
      → clear_msg r ≡ true
      → unmarshal (encode r) ≡ some l
      → l.msg ≡ r.msg
  pub captured :
      (path : Bytes)
      → unmarshal (encode (captured_record path))
        ≡ some (record { msg = bytes "captured"; path = coerced path; error = [] })
  pub fatal :
      (e : Error)
      → unmarshal (encode (fatal_record e))
        ≡ some (record { msg = bytes "fatal"; path = []; error = coerced e.text })
  pub non_empty : (s : Bytes) → s ≢ [] → coerced s ≢ []

-- the text of a log, with a format for each handler
abbrev pub line_text : (LogRecord → Bytes) → (LogRecord → Bytes) → Line → Bytes
line_text encode encode_plain (json r) = encode r
line_text encode encode_plain (plain r) = encode_plain r

abbrev pub log_text : (LogRecord → Bytes) → (LogRecord → Bytes) → List Line → Bytes
log_text encode encode_plain lines = print_lines (map (line_text encode encode_plain) lines)

-- a line that does not fill the buffer of capturedFramePath
abbrev pub Fits : (LogRecord → Bytes) → Line → Type 0
Fits encode (json r) = length (encode r) < bully_token_size
Fits encode (plain r) = Unit

module _ (encode encode_plain : LogRecord → Bytes) (unmarshal : Bytes → Option LogLine)
    (coerced : Bytes → Bytes) (format : Format encode unmarshal coerced) where
  verdict_of : (l : LogLine) → decides l.msg ≡ false → verdict (some l) ≡ none
  unfolding verdict
  verdict_of l h = ground arith

  verdict-Quiet : (r : LogRecord) → Quiet r → verdict (unmarshal (encode r)) ≡ none
  unfolding verdict
  verdict-Quiet r (q, c) = elim (Option-cases (unmarshal (encode r))) [
    | inl e ↦ rw e refl
    | inr (l, e) ↦ rw e (verdict_of l (ap decides (format.msg r c e) ∙ q))
  ]

  verdicts-Quiet :
      (rs : List LogRecord) → All Quiet rs → All (λ l. verdict (unmarshal l) ≡ none) (map encode rs)
  verdicts-Quiet [] h = tt
  verdicts-Quiet (r ∷ rs) (q, h) = (verdict-Quiet r q, verdicts-Quiet rs h)

  Scans-lines :
      (rs : List LogRecord)
      → All (Fits encode) (map json rs)
      → All (Scans bully_token_size) (map (line_text encode encode_plain) (map json rs))
  Scans-lines [] h = tt
  Scans-lines (r ∷ rs) (b, h) = let (n, c) = format.one_line r in ((n, c, b), Scans-lines rs h)

  texts_last :
      (rs : List LogRecord) (r : LogRecord)
      → map (line_text encode encode_plain) (map json (rs ++ r ∷ []))
        ≡ map encode rs ++ encode r ∷ []
  texts_last [] r = refl
  texts_last (x ∷ rs) r = ap (λ s. encode x ∷ s) (texts_last rs r)

  -- the last record decides
  pub reads_last :
      (ls rs : List LogRecord) (r : LogRecord) {a : Result Bytes Bytes}
      → ls ≡ rs ++ r ∷ []
      → All Quiet rs
      → All (Fits encode) (map json ls)
      → verdict (unmarshal (encode r)) ≡ some a
      → captured_frame_path unmarshal (log_text encode encode_plain (map json ls)) ≡ a
  reads_last ls rs r e q fits v =
      captured_frame_path_decided unmarshal _ (map encode rs) (encode r) []
        (scan_lines-print_lines bully_token_size _ (Scans-lines ls fits)
          ∙ ap (λ xs. map (line_text encode encode_plain) (map json xs)) e
          ∙ texts_last rs r)
        (verdicts-Quiet rs q) v

  pub captured_verdict :
      (path : Bytes)
      → path ≢ []
      → verdict (unmarshal (encode (captured_record path))) ≡ some (ok (coerced path))
  unfolding verdict ◌==◌
  captured_verdict path ne =
      let kept = format.non_empty path ne in
      rw (format.captured path) (ground (arith, ==_iff (coerced path) [], kept))

  pub fatal_verdict :
      (e : Error)
      → verdict (unmarshal (encode (fatal_record e)))
        ≡ some (err (bytes "chrome-bully failed: " ++ coerced e.text))
  unfolding verdict ◌==◌
  fatal_verdict e = rw (format.fatal e) refl
