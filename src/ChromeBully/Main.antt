-- ===== src/ChromeBully/Main.antt =====
-- cmd/chrome-bully/main.go: run and main over a driver. The loop of captures on an interval takes fuel
-- too.
pub mod Once
use gubal.Common.{
  ℕ, zero, suc, Bool, true, false, not, ◌&&◌, List, [], ◌∷◌, ◌++◌, Option, none, some, ◌≡◌, Bytes,
  bytes, ◌==◌, Result, ok, err, if◌then◌else◌, length, map,
}
use gubal.Common.Int.{ℤ, pos, negsuc}
use gubal.Common.Errors.{Error, errorf, wrap, is_canceled}
use gubal.Strings.{contains}
use gubal.ChromeBully.{HeaderError, no_colon, empty_name, parse_headers, chrome_version, frame_name}
use gubal.ChromeBully.Console.{info, error, Value, text, number, LogRecord}
use gubal.ChromeBully.Driver.{
  Driver, Action, enable_runtime, enable_log, enable_network, set_extra_http_headers,
  emulate_viewport, navigate, Outcome, returned, failed, starved, Ran, D, pure, raise, starve, call,
  in_tab, attempt, log, ◌>>=◌, ◌>>◌, check, checked, enabled,
}
use gubal.ChromeBully.Capture.{Flags, positive, capture}

abbrev number_of : ℕ → Value
number_of n = number (pos n)

abbrev pub fatal_record : Error → LogRecord
fatal_record e = record {
  level = error;
  msg = bytes "fatal";
  attrs = (bytes "err", text e.text) ∷ [];
}

abbrev pub captured_record : Bytes → LogRecord
captured_record path = record {
  level = info;
  msg = bytes "captured";
  attrs = (bytes "path", text path) ∷ [];
}

module _ (d : Driver) (f : Flags) where
  abbrev header_text : HeaderError → Bytes
  header_text (no_colon h) = bytes "invalid -header " ++ (d.quote h ++ bytes ": want 'Name: Value'")
  header_text (empty_name h) = bytes "invalid -header " ++ (d.quote h ++ bytes ": empty name")

  abbrev header_map : Result HeaderError (List (Bytes × Bytes)) → D d (List (Bytes × Bytes))
  header_map (ok headers) = pure headers
  header_map (err e) = raise (errorf (header_text e))

  abbrev log_captured : Bytes → D d Unit
  log_captured path = log info (bytes "captured") ((bytes "path", text path) ∷ [])

  abbrev log_connected : Bytes → List (Bytes × Bytes) → D d Unit
  log_connected product headers = log info (bytes "connected to chrome") (
      (bytes "cdp-url", text f.cdp_url)
      ∷ (bytes "product", text product)
      ∷ (bytes "chrome-version", text (chrome_version product))
      ∷ (bytes "target-url", text f.target_url)
      ∷ (bytes "out-dir", text f.out_dir)
      ∷ (bytes "interval", text (d.duration_text f.interval))
      ∷ (bytes "headers", number_of (length headers))
      ∷ (bytes "expect-text", text f.expect_text)
      ∷ [])

  abbrev shutting_down : D d Unit
  shutting_down = log info (bytes "shutting down") []

  abbrev next : Bool → D d Unit → D d Unit
  next true rest = shutting_down
  next false rest = rest

  abbrev captured_or_not : Result Error Bytes → D d Unit → D d Unit
  captured_or_not (ok path) rest = do log_captured path; rest
  captured_or_not (err e) rest =
      if is_canceled e
      then shutting_down
      else do log error (bytes "capture failed") ((bytes "err", text e.text) ∷ []); rest

  -- the loop with an interval; the fuel is the number of rounds, and of evaluations in each
  unfoldable pub capture_loop : ℕ → ℕ → List (Bytes × Bytes) → Bytes → D d Unit
  capture_loop evaluations zero headers version = starve
  capture_loop evaluations (suc rounds) headers version =
      let rest = capture_loop evaluations rounds headers version in
      do
        r ← attempt (capture d f evaluations headers version)
        captured_or_not r (do done ← call d.next_round; next done rest)

  abbrev capture_once : ℕ → List (Bytes × Bytes) → Bytes → D d Unit
  capture_once evaluations headers version = do
    path ← capture d f evaluations headers version
    log_captured path

  -- run after the level is set
  unfoldable pub run : ℕ → ℕ → D d Unit
  run evaluations rounds = do
    headers ← header_map (parse_headers [] f.headers)
    made ← call (d.mkdir_all f.out_dir)
    check (bytes "cannot create out-dir " ++ d.quote f.out_dir) made
    got ← call (d.get_version f.cdp_url)
    product ← checked (bytes "cannot reach chrome at " ++ f.cdp_url) got
    log_connected product headers
    if positive f.interval
        then capture_loop evaluations rounds headers (chrome_version product)
        else capture_once evaluations headers (chrome_version product)

-- the end of the process: its code, none where fuel is missing, and the lines on stderr: JSON of the
-- handler that run sets, or plain ones of the default handler
pub data Line : Type 0 where
  json plain : LogRecord → Line

pub record Exit (d : Driver) : Type 0 where
  pub code : Option ℕ
  pub world : d.World
  pub lines : List Line

-- what a handler of a least level shows
abbrev pub shown : ℤ → List LogRecord → List LogRecord
shown least [] = []
shown least (r ∷ rs) = let rest = shown least rs in if enabled least r.level then r ∷ rest else rest

abbrev pub exit_of : {d : Driver} → ℤ → Outcome Unit → d.World → List LogRecord → Exit d
exit_of least (returned _) w rs = record {
  code = some 0;
  world = w;
  lines = map json (shown least rs);
}
exit_of least (failed e) w rs = record {
  code = some 1;
  world = w;
  lines = map json (shown least (rs ++ fatal_record e ∷ []));
}
exit_of least starved w rs = record { code = none; world = w; lines = map json (shown least rs) }

unfoldable pub main : (d : Driver) → Flags → ℕ → ℕ → d.World → Exit d
main d f evaluations rounds w = elim (d.parse_level f.slog_level) [
  | err e ↦ record {
    code = some 1;
    world = w;
    lines =
        plain (fatal_record (wrap (bytes "invalid -slog-level " ++ d.quote f.slog_level) e)) ∷ [];
  }
  | ok least ↦ let r = run d f evaluations rounds w in exit_of least r.outcome r.world r.lines
]
