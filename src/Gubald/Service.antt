-- ===== src/Gubald/Service.antt =====
-- cmd/gubald/svc/smoketest/smoketest.go: the requests, the allowlist, the semaphore, and the
-- background runs as steps. A posted comment is recorded whether GitHub takes it or not, since the
-- error of a post is only logged.
pub mod Runs
pub mod Answers
pub mod Browsers
use gubal.Common.{
  ℕ, zero, suc, ◌+◌, ◌≤◌, Bool, true, false, ◌&&◌, List, [], ◌∷◌, ◌++◌, ◌≡◌, ◌≢◌, refl, arith,
  Bytes, bytes, ◌==◌, member, Result, ok, err, if◌then◌else◌, length, map, all, length-append,
  Option, none, some, ◌⊎◌, inl, inr, Bool-cases,
}
use gubal.Common.Int.{ℤ, pos}
use gubal.Common.Errors.{Error}
use gubal.Strings.{itoa, trim_space}
use gubal.Chromesweep.Versions.{VersionsError, parse_versions}
use gubal.Chromesweep.Policies.{StringMap}
use gubal.Chromesweep.Config.{Browser, chrome_browser, firefox_browser}
use gubal.Chromesweep.Report.{
  Status, pass, fail, not_ready, error, other, SweepResult, Report, all_passed, results_passed,
}
use gubal.Chromesweep.Report.Markdown.{render_markdown}
use gubal.Gubald.Comments.{body_ack, body_busy, body_result, body_run_error}

-- the int32 majors of a request
pub record SmokeTestRequest : Type 0 where
  pub id : Bytes
  pub anubis_image : Bytes
  pub chrome_versions : List ℤ
  pub firefox_versions : List ℤ
  pub policies : StringMap

pub record SubmitRequest : Type 0 where
  pub repo : Bytes
  pub pr : ℤ
  pub sha : Bytes
  pub test : SmokeTestRequest

unfoldable pub parse_ints : List ℤ → Result VersionsError (List Bytes)
parse_ints vs = parse_versions (map itoa vs)

pub data BrowsersError : Type 0 where
  bad_versions : VersionsError → BrowsersError
  no_versions : BrowsersError

-- `if len(versions) > 0 { ... }` for one browser, with what follows it
with_versions :
    Browser
    → List ℤ
    → List Browser
    → (List Browser → Result BrowsersError (List Browser))
    → Result BrowsersError (List Browser)
with_versions b [] browsers next = next browsers
with_versions b (v ∷ vs) browsers next = elim (parse_ints (v ∷ vs)) [
  | err e ↦ err (bad_versions e)
  | ok tags ↦ next (browsers ++ (record b { versions = tags }) ∷ [])
]

some_browsers : List Browser → Result BrowsersError (List Browser)
some_browsers [] = err no_versions
some_browsers (b ∷ bs) = ok (b ∷ bs)

unfoldable pub browsers_for : SmokeTestRequest → Result BrowsersError (List Browser)
unfolding with_versions some_browsers
browsers_for req =
    with_versions chrome_browser req.chrome_versions []
      (λ bs. with_versions firefox_browser req.firefox_versions bs some_browsers)

pub data SweepStatus : Type 0 where
  status_pass status_fail status_not_ready status_error status_unspecified : SweepStatus

unfoldable pub sweep_status : Status → SweepStatus
sweep_status pass = status_pass
sweep_status fail = status_fail
sweep_status not_ready = status_not_ready
sweep_status error = status_error
sweep_status (other s) = status_unspecified

-- ChromeVersionResult
pub record VersionResult : Type 0 where
  pub browser : Bytes
  pub tag : Bytes
  pub status : SweepStatus
  pub browser_version : Bytes
  pub reported_ua : Bytes
  pub detail : Bytes
  pub policy : Bytes

pub record SmokeTestResult : Type 0 where
  pub success : Bool
  pub report : Bytes
  pub results : List VersionResult

unfoldable pub version_result : SweepResult → VersionResult
unfolding sweep_status
version_result r = record {
  browser = r.browser;
  tag = r.tag;
  status = sweep_status r.status;
  browser_version = r.browser_version;
  reported_ua = r.reported_ua;
  detail = r.detail;
  policy = r.policy;
}

unfoldable pub report_to_result : Report → SmokeTestResult
report_to_result rep = record {
  success = all_passed rep;
  report = render_markdown rep;
  results = map version_result rep.results;
}

-- the allowlist of New, a set as the list of its members; strings.ToLower is the first argument
unfoldable pub allowlist : (Bytes → Bytes) → List Bytes → List Bytes
allowlist to_lower [] = []
allowlist to_lower (r ∷ repos) =
    let rest = allowlist to_lower repos in
    let repo = trim_space r in if repo == [] then rest else to_lower repo ∷ rest

pub data TwirpError : Type 0 where
  invalid_argument : Bytes → TwirpError
  permission_denied resource_exhausted : TwirpError
  internal : Error → TwirpError

pub record Comment : Type 0 where
  pub repo : Bytes
  pub pr : ℤ
  pub body : Bytes

-- where a background goroutine is: before its first comment, in its sweep, after its last comment
pub data Phase : Type 0 where
  accepted sweeping closing : Phase

pub record Job : Type 0 where
  pub request : SubmitRequest
  pub phase : Phase

-- `busy` is the one place of sweepSem, `calls` the SmokeTest calls that hold it
pub record Service : Type 0 where
  pub busy : Bool
  pub calls : ℕ
  pub jobs : List Job
  pub comments : List Comment

abbrev pub post : SubmitRequest → Bytes → Service → Service
post req body s = record s {
  comments = s.comments ++ (record { repo = req.repo; pr = req.pr; body = body }) ∷ [];
}

-- SubmitSmokeTest up to its return, with what protovalidate says of the request: the id, and the
-- goroutine is started
unfoldable pub submit_smoke_test :
    (Bytes → Bytes)
    → List Bytes
    → Option Bytes
    → SubmitRequest
    → Service
    → Result TwirpError Bytes × Service
submit_smoke_test to_lower allowed (some why) req s = (err (invalid_argument why), s)
submit_smoke_test to_lower allowed none req s =
    if member (to_lower req.repo) allowed
    then (if s.busy then (err resource_exhausted, post req body_busy s) else (
      ok req.test.id,
      record s { busy = true; jobs = s.jobs ++ (record { request = req; phase = accepted }) ∷ [] },
    ))
    else (err permission_denied, s)

-- SmokeTest up to its sweep
unfoldable pub begin_smoke_test : Option Bytes → Service → Result TwirpError Unit × Service
begin_smoke_test (some why) s = (err (invalid_argument why), s)
begin_smoke_test none s =
    if s.busy
    then (err resource_exhausted, s)
    else (ok tt, record s { busy = true; calls = s.calls + 1 })

-- len(ChromeVersions) + len(FirefoxVersions)
abbrev pub version_count : SmokeTestRequest → ℕ
version_count t = length t.chrome_versions + length t.firefox_versions

-- the body of the last comment: of the error's text, or of the report and the link to its bundle
unfoldable pub closing_body : SubmitRequest → Result Bytes (Report × Bytes) → Bytes
closing_body req (err e) = body_run_error req.sha e
closing_body req (ok (rep, url)) = body_result (all_passed rep) (render_markdown rep) req.sha url
