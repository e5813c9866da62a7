-- ===== src/Chromesweep/Report/Stats.antt =====
-- What PolicyStats counts, and what AllPassed says of it.
use gubal.Common.{
  ℕ, ◌+◌, ◌<◌, Bool, true, false, ◌&&◌, List, [], ◌∷◌, ◌++◌, ◌≡◌, inl, inr, refl, ap, sym, ◌∙◌,
  arith, Bytes, ◌==◌, ==_iff, if◌then◌else◌, all, count, map, append-nil, append_assoc, Bool-cases,
  member, Distinct, All, ◌≤◌,
}
use gubal.Common.Keys.{first_seen, first_seen_old, first_seen_new, first_seen-Distinct}
use gubal.Chromesweep.Report.{
  is_pass, SweepResult, Report, passed, PolicyStat, results_passed, all_passed, stat_status, one_if,
  tally, tally_loop, policy_stats,
}

-- the passes and the results that a tally has under a name
abbrev pub passes_of : Bytes → List PolicyStat → ℕ
passes_of n [] = 0
passes_of n (s ∷ stats) = if s.name == n then s.passed else passes_of n stats

abbrev pub total_of : Bytes → List PolicyStat → ℕ
total_of n [] = 0
total_of n (s ∷ stats) = if s.name == n then s.total else total_of n stats

abbrev pub under : Bytes → SweepResult → Bool
under n r = r.policy == n

passes_of-tally :
    (n : Bytes) (r : SweepResult) (stats : List PolicyStat)
    → passes_of n (tally r stats) ≡ passes_of n stats + one_if (under n r && passed r)
unfolding tally
passes_of-tally n r [] = ground arith
passes_of-tally n r (s ∷ stats) =
    ground
      (arith, passes_of-tally n r stats, ==_iff s.name r.policy, ==_iff s.name n, ==_iff r.policy n)

total_of-tally :
    (n : Bytes) (r : SweepResult) (stats : List PolicyStat)
    → total_of n (tally r stats) ≡ total_of n stats + one_if (under n r)
unfolding tally
total_of-tally n r [] = ground arith
total_of-tally n r (s ∷ stats) =
    ground
      (arith, total_of-tally n r stats, ==_iff s.name r.policy, ==_iff s.name n, ==_iff r.policy n)

passes_of-tally_loop :
    (n : Bytes) (stats : List PolicyStat) (rs : List SweepResult)
    → passes_of n (tally_loop stats rs) ≡ passes_of n stats + count (λ r. under n r && passed r) rs
unfolding tally_loop
passes_of-tally_loop n stats [] = omega arith
passes_of-tally_loop n stats (r ∷ rs) =
    ground (arith, passes_of-tally_loop n (tally r stats) rs, passes_of-tally n r stats)

total_of-tally_loop :
    (n : Bytes) (stats : List PolicyStat) (rs : List SweepResult)
    → total_of n (tally_loop stats rs) ≡ total_of n stats + count (under n) rs
unfolding tally_loop
total_of-tally_loop n stats [] = omega arith
total_of-tally_loop n stats (r ∷ rs) =
    ground (arith, total_of-tally_loop n (tally r stats) rs, total_of-tally n r stats)

abbrev pub stat_names : List PolicyStat → List Bytes
stat_names = map (λ s. s.name)

names-tally_old :
    (r : SweepResult) (stats : List PolicyStat)
    → member r.policy (stat_names stats) ≡ true
    → stat_names (tally r stats) ≡ stat_names stats
unfolding tally
names-tally_old r [] h = cc
names-tally_old r (s ∷ stats) h = ground (arith, names-tally_old r stats)

names-tally_new :
    (r : SweepResult) (stats : List PolicyStat)
    → member r.policy (stat_names stats) ≡ false
    → stat_names (tally r stats) ≡ stat_names stats ++ r.policy ∷ []
unfolding tally
names-tally_new r [] h = refl
names-tally_new r (s ∷ stats) h = ground (arith, names-tally_new r stats)

abbrev pub policies_of : List SweepResult → List Bytes
policies_of = map (λ r. r.policy)

names-tally_loop :
    (stats : List PolicyStat) (rs : List SweepResult)
    → stat_names (tally_loop stats rs)
      ≡ stat_names stats ++ first_seen (stat_names stats) (policies_of rs)
unfolding tally_loop
names-tally_loop stats [] = unfold first_seen in sym (append-nil _)
names-tally_loop stats (r ∷ rs) = elim (Bool-cases (member r.policy (stat_names stats))) [
  | inl h ↦ rw (first_seen_old (stat_names stats) r.policy (policies_of rs) h) (
      names-tally_loop (tally r stats) rs
      ∙ ap (λ l. l ++ first_seen l (policies_of rs)) (names-tally_old r stats h))
  | inr h ↦ rw (first_seen_new (stat_names stats) r.policy (policies_of rs) h) (
      names-tally_loop (tally r stats) rs
      ∙ ap (λ l. l ++ first_seen l (policies_of rs)) (names-tally_new r stats h)
      ∙ append_assoc (stat_names stats) (r.policy ∷ [])
          (first_seen (stat_names stats ++ r.policy ∷ []) (policies_of rs)))
]

-- PolicyStats has one entry for each policy of the results, in the order in which they are first
-- seen, and the entry of a policy counts its results and those that passed.
pub policy_stats_lem :
    (rs : List SweepResult)
    → (stat_names (policy_stats rs) ≡ first_seen [] (policies_of rs))
      × Distinct (stat_names (policy_stats rs))
      × ((n : Bytes) → passes_of n (policy_stats rs) ≡ count (λ r. under n r && passed r) rs)
      × ((n : Bytes) → total_of n (policy_stats rs) ≡ count (under n) rs)
unfolding policy_stats
policy_stats_lem rs = (
  names-tally_loop [] rs,
  rw (names-tally_loop [] rs) (first_seen-Distinct [] (policies_of rs) tt),
  λ n. omega (arith, passes_of-tally_loop n [] rs),
  λ n. omega (arith, total_of-tally_loop n [] rs),
)

abbrev IsTally : List PolicyStat → Type 0
IsTally = All (λ s. (0 < s.total) × (s.passed ≤ s.total))

abbrev pub stats_pass : List PolicyStat → Bool
stats_pass = all (λ s. is_pass (stat_status s))

tally-IsTally :
    (r : SweepResult) (stats : List PolicyStat) → IsTally stats → IsTally (tally r stats)
unfolding tally
tally-IsTally r [] _ = ground arith
tally-IsTally r (s ∷ stats) (h, hs) = ground (arith, tally-IsTally r stats hs)

stats_pass-tally :
    (r : SweepResult) (stats : List PolicyStat)
    → IsTally stats
    → stats_pass (tally r stats) ≡ (stats_pass stats && passed r)
unfolding tally stat_status
stats_pass-tally r [] _ = ground arith
stats_pass-tally r (s ∷ stats) (h, hs) = ground (arith, stats_pass-tally r stats hs)

stats_pass-tally_loop :
    (stats : List PolicyStat) (rs : List SweepResult)
    → IsTally stats
    → stats_pass (tally_loop stats rs) ≡ (stats_pass stats && results_passed rs)
unfolding tally_loop results_passed
stats_pass-tally_loop stats [] h = ground arith
stats_pass-tally_loop stats (r ∷ rs) h = ground (
  arith,
  stats_pass-tally_loop (tally r stats) rs (tally-IsTally r stats h),
  stats_pass-tally r stats h,
)

-- A run has passed exactly when the status of every policy in the tally is pass.
pub all_passed-policy_stats :
    (rep : Report) → all_passed rep ≡ stats_pass (policy_stats rep.results)
unfolding all_passed policy_stats
all_passed-policy_stats rep = sym (stats_pass-tally_loop [] rep.results tt)
