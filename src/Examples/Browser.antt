-- ===== src/Examples/Browser.antt =====
-- The theorems on chrome-bully, with a driver whose world is the time that is left.
use gubal.ChromeBully.Capture.{capture}
use gubal.Strings.{contains, last_index}
use gubal.Common.{
  ℕ, zero, suc, ◌+◌, ◌≤◌, ◌<◌, true, List, [], ◌∷◌, ◌++◌, Option, none, some, ◌≡◌, ◌⊎◌, refl, arith,
  Bytes, bytes, ok, ◌==◌, length, take, map, All,
}
use gubal.Common.Int.{pos}
use gubal.Common.Errors.{Error, errorf}
use gubal.Strings.{base, cut, trim_space}
use gubal.Chromesweep.Sweep.{version_from_frame}
use gubal.ChromeBully.{
  frame_name, chrome_version, parse_header, parse_headers, put, safe_byte, sanitize,
}
use gubal.ChromeBully.Console.{truncate, truncate_lem, console_text_limit, elision}
use gubal.ChromeBully.Driver.{Driver}
use gubal.ChromeBully.Capture.{Flags, wait_for_text}
use gubal.ChromeBully.Main.{run, main}
use gubal.ChromeBully.Capture.Waiting.{Ends, wait_for_text-Ends}
use gubal.ChromeBully.Capture.Ends.{Clock}
use gubal.ChromeBully.Frames.{version_from_frame-frame_name}
use gubal.ChromeBully.Headers.{AreHeaders, lookup, last_of, parse_headers_lem}
use gubal.ChromeBully.Reading.{Fits}
use gubal.ChromeBully.Reported.{Reported, captured_frame_path-main}
use gubal.Examples.Letters.{inline, encode, decode, letters}

abbrev timing : ℕ → Option Error × ℕ
timing zero = (some (errorf (bytes "deadline")), zero)
timing (suc n) = (none, n)

abbrev quiet_driver : Driver
quiet_driver = record {
  World = ℕ;
  parse_level = λ s. ok (pos 0);
  to_lower = λ s. s;
  quote = λ s. s;
  duration_text = λ n. bytes "30s";
  mkdir_all = λ path w. (none, w);
  get_version = λ url w. (ok (bytes "HeadlessChrome/120.0.1"), w);
  open_tab = λ n w. (none, 3);
  close_tab = λ w. w;
  run_actions = λ actions w. ((none, []), w);
  evaluate = λ q w. ((ok (bytes "X-Test: yes"), []), w);
  full_screenshot = λ n w. ((ok (bytes "png"), []), w);
  next_tick = λ w. let (o, v) = timing w in ((o, []), v);
  time_stamp = λ w. ((bytes "20060102T150405.000Z", []), w);
  write_file = λ path content w. ((none, []), w);
  join_path = λ dir name. dir ++ b'/' ∷ name;
  next_round = λ w. (true, w);
  unmarshal_string = λ s. none;
}

abbrev flags : Flags
flags = record {
  cdp_url = bytes "http://localhost:9222";
  target_url = bytes "http://localhost:8080";
  out_dir = bytes "/data";
  interval = pos 0;
  timeout = pos 30;
  width = pos 1280;
  height = pos 720;
  expect_text = bytes "yes";
  slog_level = bytes "info";
  headers = bytes "X-Test: yes" ∷ [];
}

time_passes : (w : ℕ) → (timing w).0 ≡ none → (timing w).1 < w
time_passes zero e = absurd (cc e)
time_passes (suc n) e = omega arith

wait_for_text-Ends_example :
    Ends quiet_driver flags
      (bytes "yes")
      (wait_for_text quiet_driver flags 3 (bytes "yes") 2).outcome
wait_for_text-Ends_example =
    wait_for_text-Ends quiet_driver flags (λ w. w) (λ q w. omega arith) time_passes 3 (bytes "yes")
      2 (omega arith)

truncate_lem_example :
    (((length (bytes "error") ≤ console_text_limit) × (truncate (bytes "error") ≡ bytes "error"))
      ⊎ ((console_text_limit < length (bytes "error"))
          × (truncate (bytes "error") ≡ take console_text_limit (bytes "error") ++ elision)
          × (length (take console_text_limit (bytes "error")) ≡ console_text_limit)))
    × (length (truncate (bytes "error")) ≤ console_text_limit + length elision)
truncate_lem_example = truncate_lem (bytes "error")

abbrev two_headers : List Bytes
two_headers = bytes "X-Test: a" ∷ bytes "X-Test: b" ∷ []

headers_parsed : parse_headers [] two_headers ≡ ok ((bytes "X-Test", bytes "b") ∷ [])
unfolding parse_headers parse_header cut ◌==◌ trim_space put
headers_parsed = refl

parse_headers_lem_example :
    (ps : List (Bytes × Bytes)) × AreHeaders two_headers ps
    × ((key : Bytes) → lookup key ((bytes "X-Test", bytes "b") ∷ []) ≡ last_of key none ps)
parse_headers_lem_example = parse_headers_lem two_headers headers_parsed

version_safe : All (λ b. safe_byte b ≡ true) (bytes "120.0.1")
version_safe = (refl, (refl, (refl, (refl, (refl, (refl, (refl, tt)))))))

abbrev frame_120 : Bytes
frame_120 =
    frame_name (chrome_version (bytes "HeadlessChrome/120.0.1")) (bytes "20060102T150405.000Z")

frame_kept : base (bytes "/data/" ++ frame_120) ≡ frame_120
unfolding frame_name chrome_version base sanitize
frame_kept = refl

version_from_frame-frame_name_example :
    version_from_frame (bytes "/data/" ++ frame_120) ≡ bytes "120.0.1"
version_from_frame-frame_name_example =
    version_from_frame-frame_name (λ dir name. dir ++ b'/' ∷ name) (bytes "/data")
      (bytes "HeadlessChrome") (bytes "120.0.1") (bytes "20060102T150405.000Z") version_safe
      (λ e. cc e) (omega arith) frame_kept

three_ticks : Clock quiet_driver flags 3
three_ticks = record {
  left = λ w. w;
  opened = λ w. omega arith;
  loaded = λ actions w. omega arith;
  evaluated = λ q w. omega arith;
  ticked = time_passes;
}

two_lines : All (Fits encode) (main quiet_driver flags 4 1 0).lines
unfolding main run parse_headers parse_header cut ◌==◌ trim_space capture wait_for_text contains
    frame_name sanitize chrome_version last_index
two_lines = (omega arith, (omega arith, tt))

captured_frame_path-main_example :
    Reported encode encode decode
      (map inline)
      letters
      quiet_driver
      flags
      (run quiet_driver flags 4 1 0).outcome
      (main quiet_driver flags 4 1 0).code
      (main quiet_driver flags 4 1 0).lines
captured_frame_path-main_example =
    captured_frame_path-main encode encode decode (map inline) letters quiet_driver flags
      three_ticks refl refl refl (λ a b ne e. ne (tail_empty a b e)) 4 1 (omega arith) 0 two_lines
  where
    tail_empty : (a b : Bytes) → a ++ b'/' ∷ b ≡ [] → b ≡ []
    tail_empty [] b e = absurd (cc e)
    tail_empty (c ∷ a) b e = absurd (cc e)
