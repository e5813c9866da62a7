-- ===== src/Chromesweep/Report/Markdown.antt =====
-- RenderMarkdown, renderBrowserGroups and writeFailureLogs of chromesweep/report.go. A
-- strings.Builder is the text that is appended to it. MarshalJSON is here for the value that it hands
-- to encoding/json.
use gubal.Common.{
  ℕ, true, false, ◌||◌, List, [], ◌∷◌, ◌++◌, Bytes, bytes, ◌==◌, if◌then◌else◌, length, count,
}
use gubal.Common.Int.{pos}
use gubal.Strings.{itoa, escape_string}
use gubal.Chromesweep.Report.{
  SweepResult, Report, LogCapture, PolicyStat, status_text, stat_status, passed, policy_stats,
}
use gubal.Chromesweep.Report.Groups.{Groups, group_by}
use gubal.Chromesweep.Report.Tail.{last_lines, title_case, dash}
use gubal.Chromesweep.Bundle.{bundle_frame_path}

abbrev pub failure_log_tail_lines : ℕ
failure_log_tail_lines = 5

abbrev pub decimal : ℕ → Bytes
decimal n = itoa (pos n)

-- texts one behind the other
unfoldable pub concat : List Bytes → Bytes
concat [] = []
concat (t ∷ ts) = t ++ concat ts

unfoldable pub log_block : LogCapture → Bytes
unfolding concat
log_block lg = concat (
    bytes "<b>"
    ∷ escape_string lg.container
    ∷ bytes "</b>\n<pre>"
    ∷ escape_string (last_lines lg.content failure_log_tail_lines)
    ∷ bytes "</pre>\n\n"
    ∷ [])

unfoldable pub log_blocks : List LogCapture → Bytes
log_blocks [] = []
log_blocks (lg ∷ logs) = log_block lg ++ log_blocks logs

unfoldable pub failure_summary : SweepResult → Bytes
unfolding concat
failure_summary r = concat (
    bytes "<details><summary>"
    ∷ title_case r.browser
    ∷ bytes " "
    ∷ r.tag
    ∷ bytes " ("
    ∷ status_text r.status
    ∷ bytes ") — logs (last "
    ∷ decimal failure_log_tail_lines
    ∷ bytes " lines each; full logs in bundle)</summary>\n\n"
    ∷ [])

unfoldable pub write_failure_logs : SweepResult → Bytes
unfolding log_blocks
write_failure_logs r = failure_summary r ++ (log_blocks r.logs ++ bytes "</details>\n\n")

unfoldable pub result_row : SweepResult → Bytes
unfolding concat
result_row r = concat (
    bytes "| "
    ∷ r.tag
    ∷ bytes " | "
    ∷ status_text r.status
    ∷ bytes " | "
    ∷ dash r.browser_version
    ∷ bytes " | "
    ∷ dash (bundle_frame_path r)
    ∷ bytes " | "
    ∷ dash r.detail
    ∷ bytes " |\n"
    ∷ [])

unfoldable pub result_rows : List SweepResult → Bytes
result_rows [] = []
result_rows (r ∷ rs) = result_row r ++ result_rows rs

unfoldable pub failure_logs : List SweepResult → Bytes
unfolding write_failure_logs
failure_logs [] = []
failure_logs (r ∷ rs) =
    (if passed r || (elim r.logs [ [] ↦ true | _ ↦ false ]) then [] else write_failure_logs r)
    ++ failure_logs rs

unfoldable pub browser_section : Bytes → List SweepResult → Bytes
unfolding concat result_row result_rows failure_logs
browser_section browser rs = concat (
    bytes "## "
    ∷ title_case browser
    ∷ bytes " version sweep — "
    ∷ decimal (count passed rs)
    ∷ bytes "/"
    ∷ decimal (length rs)
    ∷ bytes " passed\n\n"
    ∷ bytes "| tag | status | browser version | frame | detail |\n"
    ∷ bytes "|-----|--------|-----------------|-------|--------|\n"
    ∷ result_rows rs
    ∷ bytes "\n"
    ∷ failure_logs rs
    ∷ [])

browser_sections : Groups → Bytes
browser_sections [] = []
browser_sections ((browser, rs) ∷ groups) = browser_section browser rs ++ browser_sections groups

unfoldable pub render_browser_groups : List SweepResult → Bytes
unfolding browser_sections browser_section
render_browser_groups results = browser_sections (group_by (λ r. r.browser) results)

policy_rows : List PolicyStat → Bytes
unfolding concat
policy_rows [] = []
policy_rows (s ∷ stats) =
    concat (
      bytes "| "
      ∷ dash s.name
      ∷ bytes " | "
      ∷ status_text (stat_status s)
      ∷ bytes " | "
      ∷ decimal s.passed
      ∷ bytes "/"
      ∷ decimal s.total
      ∷ bytes " |\n"
      ∷ [])
    ++ policy_rows stats

policy_table : List PolicyStat → Bytes
unfolding concat policy_rows
policy_table [] = []
policy_table (s ∷ stats) = concat (
    bytes "## Anubis policy results\n\n"
    ∷ bytes "| policy | status | versions passed |\n"
    ∷ bytes "|--------|--------|-----------------|\n"
    ∷ policy_rows (s ∷ stats)
    ∷ bytes "\n"
    ∷ [])

policy_sections : Groups → Bytes
policy_sections [] = []
policy_sections ((policy, rs) ∷ groups) =
    (if policy == [] then [] else bytes "# Policy: " ++ (policy ++ bytes "\n\n"))
    ++ (render_browser_groups rs ++ policy_sections groups)

unfoldable pub render_markdown : Report → Bytes
unfolding policy_table policy_sections
render_markdown rep =
    (if rep.anubis_image == []
      then []
      else bytes "Anubis image: `" ++ (rep.anubis_image ++ bytes "`\n\n"))
    ++ (policy_table (policy_stats rep.results)
        ++ policy_sections (group_by (λ r. r.policy) rep.results))

-- what MarshalJSON of a Result hands on: the frame's path is the one in the bundle
unfoldable pub json_alias : SweepResult → SweepResult
json_alias r = record r { frame_path = bundle_frame_path r }
