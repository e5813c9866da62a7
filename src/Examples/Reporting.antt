-- ===== src/Examples/Reporting.antt =====
-- The theorems on the report and the bundle.
use gubal.Strings.{trim_right_byte}
use Prim.Native.Nat.{min}
use gubal.Common.Keys.{first_seen}
use gubal.Chromesweep.Report.Markdown.{write_failure_logs}
use gubal.Strings.Trim.{trim_right_byte}
use gubal.Common.{
  ◌⊎◌, ◌+◌, ◌*◌, ◌&&◌, List, [], ◌∷◌, ◌++◌, none, ◌≡◌, refl, Bytes, bytes, arith, Distinct, ok,
  length, count,
}
use gubal.Strings.{split}
use gubal.Chromesweep.Report.{SweepResult, Report, pass, fail, status_text, passed, policy_stats}
use gubal.Chromesweep.Report.Stats.{
  stat_names, policies_of, passes_of, total_of, under, policy_stats_lem,
}
use gubal.Chromesweep.Report.Tail.{newline, title_case, last_lines, last_lines_lem}
use gubal.Chromesweep.Report.Sections.{brackets, brackets-write_failure_logs}
use gubal.Chromesweep.Bundle.{BundleIo, bundle_frame_path}
use gubal.Chromesweep.Bundle.Paths.{IsNamed, bundle_frame_path_injective}

abbrev chrome_75 : SweepResult
chrome_75 = record {
  policy = bytes "strict";
  browser = bytes "chrome";
  tag = bytes "75";
  status = fail;
  browser_version = [];
  reported_ua = [];
  frame_path = bytes "f.png";
  detail = bytes "smoke job failed";
  logs =
      record { container = bytes "smoke"; content = bytes "<script>" }
      ∷ record { container = bytes "chrome"; content = [] }
      ∷ [];
}

abbrev chrome_80 : SweepResult
chrome_80 = record chrome_75 { tag = bytes "80"; status = pass; policy = bytes "lax" }

abbrev two_results : List SweepResult
two_results = chrome_75 ∷ chrome_80 ∷ chrome_75 ∷ []

policy_stats_lem_example :
    (stat_names (policy_stats two_results) ≡ first_seen [] (policies_of two_results))
    × Distinct (stat_names (policy_stats two_results))
    × ((n : Bytes)
        → passes_of n (policy_stats two_results) ≡ count (λ r. under n r && passed r) two_results)
    × ((n : Bytes) → total_of n (policy_stats two_results) ≡ count (under n) two_results)
policy_stats_lem_example = policy_stats_lem two_results

abbrev two_report : Report
two_report = record { anubis_image = bytes "anubis"; results = two_results }

brackets-write_failure_logs_example :
    brackets (write_failure_logs chrome_75)
    ≡ 8
      + brackets (title_case chrome_75.browser)
      + brackets chrome_75.tag
      + brackets (status_text chrome_75.status)
      + 8 * length chrome_75.logs
brackets-write_failure_logs_example = brackets-write_failure_logs chrome_75

abbrev three_lines : Bytes
three_lines = bytes "a" ++ 10 ∷ bytes "b" ++ 10 ∷ bytes "c" ++ 10 ∷ []

last_lines_lem_example :
    ((pre : Bytes) × (trim_right_byte newline three_lines ≡ pre ++ last_lines three_lines 2)
      × ((pre ≡ []) ⊎ ((p : Bytes) × (pre ≡ p ++ newline ∷ []))))
    × (length (split newline (last_lines three_lines 2))
        ≡ min 2 (length (split newline (trim_right_byte newline three_lines))))
last_lines_lem_example = last_lines_lem three_lines 2 (omega arith)

chrome_75-IsNamed : IsNamed chrome_75
chrome_75-IsNamed = record {
  policy = omega arith;
  browser = omega arith;
  browser_dash = omega arith;
  tag = omega arith;
}

bundle_frame_path_injective_example :
    (chrome_75.policy ≡ chrome_75.policy)
    × (chrome_75.browser ≡ chrome_75.browser)
    × (chrome_75.tag ≡ chrome_75.tag)
unfolding bundle_frame_path
bundle_frame_path_injective_example =
    bundle_frame_path_injective chrome_75 (record chrome_75 { status = pass }) chrome_75-IsNamed
      (record {
        policy = omega arith;
        browser = omega arith;
        browser_dash = omega arith;
        tag = omega arith;
      })
      (λ e. cc e) (λ e. cc e) refl

abbrev good_io : BundleIo
good_io = record {
  create = none;
  read_file = λ path. ok path;
  add = λ e. none;
  close_zip = none;
  close_file = none;
}
