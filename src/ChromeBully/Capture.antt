-- ===== src/ChromeBully/Capture.antt =====
-- cmd/chrome-bully/main.go: capture and waitForText over a driver. The loop of waitForText, which ends
-- only by what the outside does, takes fuel.
pub mod Rules
pub mod Waiting
pub mod Ends
use gubal.Common.{
  ℕ, zero, suc, Bool, true, false, not, ◌&&◌, List, [], ◌∷◌, ◌++◌, Option, none, some, ◌≡◌, Bytes,
  bytes, ◌==◌, Result, ok, err, if◌then◌else◌, length, map,
}
use gubal.Common.Int.{ℤ, pos, negsuc}
use gubal.Common.Errors.{Error, errorf, wrap, is_canceled}
use gubal.Strings.{contains}
use gubal.ChromeBully.{HeaderError, no_colon, empty_name, parse_headers, chrome_version, frame_name}
use gubal.ChromeBully.Console.{info, error, Value, text, number, LogRecord}
use gubal.ChromeBully.Driver.{
  Driver, Action, enable_runtime, enable_log, enable_network, set_extra_http_headers,
  emulate_viewport, navigate, Outcome, returned, failed, starved, Ran, D, pure, raise, starve, call,
  in_tab, attempt, log, ◌>>=◌, ◌>>◌, check, checked, enabled,
}

pub record Flags : Type 0 where
  pub cdp_url : Bytes
  pub target_url : Bytes
  pub out_dir : Bytes
  pub interval : ℤ
  pub timeout : ℤ
  pub width : ℤ
  pub height : ℤ
  pub expect_text : Bytes
  pub slog_level : Bytes
  pub headers : List Bytes

abbrev pub positive : ℤ → Bool
positive (pos zero) = false
positive (pos (suc _)) = true
positive (negsuc _) = false

abbrev header_actions : List (Bytes × Bytes) → List Action
header_actions [] = []
header_actions (h ∷ hs) = enable_network ∷ set_extra_http_headers (h ∷ hs) ∷ []

-- the actions before the page is loaded, and its load
unfoldable pub setup_actions : Flags → List (Bytes × Bytes) → List Action
setup_actions f headers =
    enable_runtime
    ∷ enable_log
    ∷ (header_actions headers
        ++ ((if positive f.width && positive f.height
              then emulate_viewport f.width f.height ∷ []
              else [])
            ++ navigate f.target_url ∷ []))

abbrev shows : Bytes → Result Error Bytes → Bool
shows want (ok txt) = contains txt want
shows want (err e) = false

module _ (d : Driver) (f : Flags) where
  -- the error of a context that is done before the text is there
  abbrev pub timed_out : Bytes → Error → Error
  timed_out want e =
      wrap
        (bytes "timed out after "
          ++ (d.duration_text f.timeout
              ++ (bytes " waiting for " ++ (d.quote want ++ (bytes " in " ++ f.target_url)))))
        e

  abbrev ticked : Bytes → Option Error → D d Unit → D d Unit
  ticked want (some e) rest = raise (timed_out want e)
  ticked want none rest = rest

  -- The fuel is the number of evaluations.
  unfoldable pub wait_for_text : ℕ → Bytes → D d Unit
  wait_for_text zero want = starve
  wait_for_text (suc fuel) want =
      let rest = wait_for_text fuel want in
      do
        r ← in_tab (d.evaluate (bytes "document.documentElement.innerText"))
        if shows want r then pure tt else do t ← in_tab d.next_tick; ticked want t rest

  abbrev awaited : ℕ → D d Unit
  awaited fuel = if f.expect_text == [] then pure tt else wait_for_text fuel f.expect_text

  -- capture once the tab is open
  abbrev frame : ℕ → List (Bytes × Bytes) → Bytes → D d Bytes
  frame fuel headers version = do
    loaded ← in_tab (d.run_actions (setup_actions f headers))
    check (bytes "loading " ++ f.target_url) loaded
    awaited fuel
    shot ← in_tab (d.full_screenshot 100)
    buf ← checked (bytes "screenshotting " ++ f.target_url) shot
    stamp ← in_tab d.time_stamp
    let path = d.join_path f.out_dir (frame_name version stamp)
    written ← in_tab (d.write_file path buf)
    check (bytes "writing " ++ path) written
    pure path

  abbrev closed : {A : Type 0} → Ran d A → Outcome A → Ran d A
  closed r (returned a) = record {
    outcome = returned a;
    world = d.close_tab r.world;
    lines = r.lines;
  }
  closed r (failed e) = record { outcome = failed e; world = d.close_tab r.world; lines = r.lines }
  closed r starved = r

  -- the deferred cancels, which run on every return
  abbrev closing : {A : Type 0} → D d A → D d A
  closing m w = closed (m w) (m w).outcome

  unfoldable pub capture : ℕ → List (Bytes × Bytes) → Bytes → D d Bytes
  capture fuel headers version = closing (do
    opened ← call (d.open_tab f.timeout)
    check (bytes "opening tab") opened
    frame fuel headers version)
