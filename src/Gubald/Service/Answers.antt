-- ===== src/Gubald/Service/Answers.antt =====
-- What SmokeTest and SubmitSmokeTest answer.
use gubal.Chromesweep.Report.{passed}
use gubal.Common.{
  Bool, true, false, List, [], ◌∷◌, ◌≡◌, refl, arith, Bytes, ◌==◌, ==_iff, ==_refl, member, ok, map,
  all, Option, none, some, Bool-cases, inl, inr,
}
use gubal.Strings.{trim_space}
use gubal.Chromesweep.Report.{SweepResult, Report, all_passed, results_passed}
use gubal.Gubald.Service.{
  status_pass, VersionResult, version_result, sweep_status, report_to_result, allowlist,
  SubmitRequest, Service, submit_smoke_test,
}

abbrev pub has_passed : VersionResult → Bool
has_passed r = elim r.status [ status_pass ↦ true | _ ↦ false ]

passed_iff : (r : SweepResult) → has_passed (version_result r) ≡ passed r
unfolding version_result sweep_status
passed_iff r = ground arith

results_passed-map :
    (rs : List SweepResult) → results_passed rs ≡ all has_passed (map version_result rs)
unfolding results_passed version_result sweep_status
results_passed-map [] = refl
results_passed-map (r ∷ rs) =
    let rest = results_passed-map rs in
    elim (Bool-cases (passed r)) [
      | inl e ↦ ground (arith, rest, passed_iff r)
      | inr e ↦ ground (arith, rest, passed_iff r)
    ]

-- The result of a run is a success exactly when every version in it has the status pass.
pub report_to_result_success :
    (rep : Report) → (report_to_result rep).success ≡ all has_passed (report_to_result rep).results
unfolding report_to_result all_passed
report_to_result_success rep = results_passed-map rep.results

member-allowlist :
    (to_lower : Bytes → Bytes) (t : Bytes) (repos : List Bytes)
    → member t (allowlist to_lower repos) ≡ true
    → (r : Bytes) × (member r repos ≡ true) × (to_lower (trim_space r) ≡ t)
unfolding allowlist
member-allowlist to_lower t [] h = absurd (ground arith)
member-allowlist to_lower t (r ∷ repos) h = elim (Bool-cases (trim_space r == [])) [
  | inl e ↦
      let (x, m, q) = member-allowlist to_lower t repos (rw e at h) in
      (x, elim (Bool-cases (r == x)) [ inl d ↦ rw d refl | inr d ↦ rw d m ], q)
  | inr e ↦
      let h' = rw e at h in
      elim (Bool-cases (to_lower (trim_space r) == t)) [
        | inl d ↦ (r, rw ==_refl refl, (==_iff _ _).0 d)
        | inr d ↦
            let (x, m, q) = member-allowlist to_lower t repos (rw d at h') in
            (x, elim (Bool-cases (r == x)) [ inl d ↦ rw d refl | inr d ↦ rw d m ], q)
      ]
]

-- A submitted run is accepted only if no other one has the place, and its repository is one of those
-- that the server was made with, but for the case of letters and space around it.
pub submit_smoke_test_accepted :
    (to_lower : Bytes → Bytes) (repos : List Bytes) (invalid : Option Bytes) (req : SubmitRequest)
    (s : Service) {id : Bytes}
    → (submit_smoke_test to_lower (allowlist to_lower repos) invalid req s).0 ≡ ok id
    → (invalid ≡ none)
      × (s.busy ≡ false)
      × ((r : Bytes) × (member r repos ≡ true) × (to_lower (trim_space r) ≡ to_lower req.repo))
unfolding submit_smoke_test
submit_smoke_test_accepted to_lower repos (some why) req s h = absurd (ground arith)
submit_smoke_test_accepted to_lower repos none req s h =
    elim (Bool-cases (member (to_lower req.repo) (allowlist to_lower repos))) [
      | inr e ↦ absurd (let h' = rw e at h in cc h')
      | inl e ↦ elim (Bool-cases s.busy) [
        | inl d ↦ absurd (let h' = rw e at h in let h'' = rw d at h' in cc h'')
        | inr d ↦ (refl, d, member-allowlist to_lower (to_lower req.repo) repos e)
      ]
    ]
