-- ===== src/Chromesweep/Report/Sections.antt =====
-- Logs cannot break the markup of the report.
use gubal.Common.{
  Bool, true, if◌then◌else◌, ℕ, ◌+◌, ◌*◌, List, [], ◌∷◌, ◌++◌, ◌≡◌, refl, arith, Bytes, bytes,
  nat_eq, nat_eq_iff, count, count-append, length, All,
}
use gubal.Strings.{escape_string, itoa}
use gubal.Strings.Escape.{IsPlain, escape_string-IsPlain}
use gubal.Chromesweep.Report.{SweepResult, LogCapture, status_text}
use gubal.Chromesweep.Report.Tail.{title_case, last_lines}
use gubal.Chromesweep.Report.Markdown.{
  log_block, log_blocks, failure_summary, write_failure_logs, failure_log_tail_lines, decimal,
}

abbrev is_bracket : ℕ → Bool
is_bracket c = if nat_eq c b'<' then true else nat_eq c b'>'

-- how many angle brackets, of both kinds, a text holds
abbrev pub brackets : Bytes → ℕ
brackets = count is_bracket

brackets_plain : (s : Bytes) → All IsPlain s → brackets s ≡ 0
brackets_plain [] _ = refl
brackets_plain (c ∷ s) (h, hs) =
    ground (arith, brackets_plain s hs, nat_eq_iff c b'<', nat_eq_iff c b'>')

brackets-escape_string : (s : Bytes) → brackets (escape_string s) ≡ 0
brackets-escape_string s = brackets_plain (escape_string s) (escape_string-IsPlain s)

brackets-append : (s t : Bytes) → brackets (s ++ t) ≡ brackets s + brackets t
brackets-append = count-append is_bracket

brackets-log_block : (lg : LogCapture) → brackets (log_block lg) ≡ 8
unfolding log_block
brackets-log_block lg = omega (
  arith,
  brackets-append (escape_string lg.container) (
      bytes "</b>\n<pre>"
      ++ (escape_string (last_lines lg.content failure_log_tail_lines) ++ bytes "</pre>\n\n")),
  brackets-append (escape_string (last_lines lg.content failure_log_tail_lines))
      (bytes "</pre>\n\n"),
  brackets-escape_string lg.container,
  brackets-escape_string (last_lines lg.content failure_log_tail_lines),
)

brackets-log_blocks : (logs : List LogCapture) → brackets (log_blocks logs) ≡ 8 * length logs
unfolding log_blocks
brackets-log_blocks [] = omega arith
brackets-log_blocks (lg ∷ logs) = omega (
  arith,
  brackets-append (log_block lg) (log_blocks logs),
  brackets-log_block lg,
  brackets-log_blocks logs,
)

abbrev summary_end : Bytes
summary_end =
    bytes ") — logs (last "
    ++ (decimal failure_log_tail_lines ++ bytes " lines each; full logs in bundle)</summary>\n\n")

brackets-summary_end : brackets summary_end ≡ 2
unfolding itoa
brackets-summary_end = refl

brackets-failure_summary :
    (r : SweepResult)
    → brackets (failure_summary r)
      ≡ 6 + brackets (title_case r.browser) + brackets r.tag + brackets (status_text r.status)
unfolding failure_summary
brackets-failure_summary r = omega (
  arith,
  brackets-append (title_case r.browser)
      (bytes " " ++ (r.tag ++ (bytes " (" ++ (status_text r.status ++ summary_end)))),
  brackets-append r.tag (bytes " (" ++ (status_text r.status ++ summary_end)),
  brackets-append (status_text r.status) summary_end,
  brackets-summary_end,
)

-- Whatever the logs of a failed version and the names of their containers hold, they add no angle
-- bracket to the report: the block has those of its own tags, of the browser's name, the tag and the
-- status, and eight for each log.
pub brackets-write_failure_logs :
    (r : SweepResult)
    → brackets (write_failure_logs r)
      ≡ 8
        + brackets (title_case r.browser)
        + brackets r.tag
        + brackets (status_text r.status)
        + 8 * length r.logs
unfolding write_failure_logs
brackets-write_failure_logs r = omega (
  arith,
  brackets-failure_summary r,
  brackets-log_blocks r.logs,
  brackets-append (failure_summary r) (log_blocks r.logs ++ bytes "</details>\n\n"),
  brackets-append (log_blocks r.logs) (bytes "</details>\n\n"),
)
