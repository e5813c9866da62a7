-- ===== src/Chromesweep/Report.antt =====
-- The data of chromesweep/report.go: results, the report of a run, and the tally of its policies.
pub mod Groups
pub mod Stats
pub mod Tail
pub mod Markdown
pub mod Sections
use gubal.Common.{
  ℕ, suc, ◌+◌, Bool, true, false, ◌&&◌, List, [], ◌∷◌, ◌++◌, Bytes, bytes, ◌==◌, ltb, nat_eq,
  if◌then◌else◌, all,
}

-- `other` is any other value of the string type, the zero value "" among them
pub data Status : Type 0 where
  pass fail not_ready error : Status
  other : Bytes → Status

abbrev pub status_text : Status → Bytes
status_text pass = bytes "pass"
status_text fail = bytes "fail"
status_text not_ready = bytes "not-ready"
status_text error = bytes "error"
status_text (other s) = s

abbrev pub is_pass : Status → Bool
is_pass pass = true
is_pass _ = false

pub record LogCapture : Type 0 where
  pub container : Bytes
  pub content : Bytes

-- the struct `Result`
pub record SweepResult : Type 0 where
  pub policy : Bytes
  pub browser : Bytes
  pub tag : Bytes
  pub status : Status
  pub browser_version : Bytes
  pub reported_ua : Bytes
  pub frame_path : Bytes
  pub detail : Bytes
  pub logs : List LogCapture

pub record Report : Type 0 where
  pub anubis_image : Bytes
  pub results : List SweepResult

abbrev pub passed : SweepResult → Bool
passed r = is_pass r.status

unfoldable pub results_passed : List SweepResult → Bool
results_passed [] = true
results_passed (r ∷ rs) = let rest = results_passed rs in if passed r then rest else false

unfoldable pub all_passed : Report → Bool
unfolding results_passed
all_passed rep = results_passed rep.results

pub record PolicyStat : Type 0 where
  pub name : Bytes
  pub passed : ℕ
  pub total : ℕ

unfoldable pub stat_status : PolicyStat → Status
stat_status p = if ltb 0 p.total && nat_eq p.passed p.total then pass else fail

abbrev one_if : Bool → ℕ
one_if true = 1
one_if false = 0

-- one round: the map `idx` holds the place of the stat with a name, so that stat is updated, and a
-- new one is appended where there is none
tally : SweepResult → List PolicyStat → List PolicyStat
tally r [] = record { name = r.policy; passed = one_if (passed r); total = 1 } ∷ []
tally r (s ∷ stats) =
    if s.name == r.policy
    then record s { total = s.total + 1; passed = s.passed + one_if (passed r) } ∷ stats
    else s ∷ tally r stats

tally_loop : List PolicyStat → List SweepResult → List PolicyStat
tally_loop stats [] = stats
tally_loop stats (r ∷ rs) = tally_loop (tally r stats) rs

unfoldable pub policy_stats : List SweepResult → List PolicyStat
unfolding tally_loop tally
policy_stats results = tally_loop [] results
