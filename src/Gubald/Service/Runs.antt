-- ===== src/Gubald/Service/Runs.antt =====
-- The calls and background goroutines of the server as steps, in any order.
use gubal.Common.{
  ℕ, zero, suc, ◌+◌, ◌-◌, ◌≤◌, ◌<◌, Bool, true, false, List, [], ◌∷◌, ◌++◌, ◌≡◌, refl, ap, ◌∙◌,
  arith, Bytes, Result, err, length, length-append, Option, none, some, Bool-cases, inl, inr,
  member,
}
use gubal.Chromesweep.Report.{Report}
use gubal.Gubald.Comments.{body_ack}
use gubal.Gubald.Service.{
  SubmitRequest, Phase, accepted, sweeping, closing, Job, Service, post, submit_smoke_test,
  begin_smoke_test, version_count, closing_body,
}

abbrev job : SubmitRequest → Phase → Job
job req phase = record { request = req; phase = phase }

abbrev pub empty : Service
empty = record { busy = false; calls = 0; jobs = []; comments = [] }

module _ (to_lower : Bytes → Bytes) (allowed : List Bytes) where
  pub data Step : Service → Service → Type 0 where
    submit :
        (invalid : Option Bytes) (req : SubmitRequest) (s : Service)
        → Step s (submit_smoke_test to_lower allowed invalid req s).1
    call : (invalid : Option Bytes) (s : Service) → Step s (begin_smoke_test invalid s).1
    -- SmokeTest returns and gives the place back
    return : (s : Service) → 0 < s.calls → Step s (record s { busy = false; calls = s.calls - 1 })
    acknowledge :
        (s : Service) (before after : List Job) (req : SubmitRequest)
        → s.jobs ≡ before ++ job req accepted ∷ after
        → Step s (
            post req
              (body_ack req.sha (version_count req.test))
              (record s { jobs = before ++ job req sweeping ∷ after }))
    -- the sweep ends in any way
    close :
        (s : Service) (before after : List Job) (req : SubmitRequest)
        (outcome : Result Bytes (Report × Bytes))
        → s.jobs ≡ before ++ job req sweeping ∷ after
        → Step s (
            post req
              (closing_body req outcome)
              (record s { jobs = before ++ job req closing ∷ after }))
    release :
        (s : Service) (before after : List Job) (req : SubmitRequest)
        → s.jobs ≡ before ++ job req closing ∷ after
        → Step s (record s { busy = false; jobs = before ++ after })

  pub data Steps : Service → Service → Type 0 where
    done : {s : Service} → Steps s s
    step_then : {s t u : Service} → Step s t → Steps t u → Steps s u

  pub data Reach : Service → Type 0 where
    begin : Reach empty
    next : {s t : Service} → Reach s → Step s t → Reach t

  -- who holds the place
  abbrev pub holders : Service → ℕ
  holders s = s.calls + length s.jobs

  abbrev one_if : Bool → ℕ
  one_if true = 1
  one_if false = 0

  pub record IsExclusive (s : Service) : Type 0 where
    pub held : holders s ≡ one_if s.busy

  submit-IsExclusive :
      (invalid : Option Bytes) (req : SubmitRequest) (s : Service)
      → IsExclusive s
      → IsExclusive (submit_smoke_test to_lower allowed invalid req s).1
  unfolding submit_smoke_test
  submit-IsExclusive (some why) req s h = h
  submit-IsExclusive none req s h = elim (Bool-cases (member (to_lower req.repo) allowed)) [
    | inr e ↦ rw e h
    | inl e ↦ elim (Bool-cases s.busy) [
      | inl d ↦ rw e (rw d (record { held = h.held ∙ ap one_if d }))
      | inr d ↦
          let free : holders s ≡ 0 = h.held ∙ ap one_if d in
          rw e (
            rw d
              (record { held = omega (arith, free, length-append s.jobs (job req accepted ∷ [])) }))
    ]
  ]

  begin-IsExclusive :
      (invalid : Option Bytes) (s : Service)
      → IsExclusive s
      → IsExclusive (begin_smoke_test invalid s).1
  unfolding begin_smoke_test
  begin-IsExclusive (some why) s h = h
  begin-IsExclusive none s h = elim (Bool-cases s.busy) [
    | inl d ↦ rw d (record { held = h.held ∙ ap one_if d })
    | inr d ↦
        let free : holders s ≡ 0 = h.held ∙ ap one_if d in
        rw d (record { held = omega (arith, free) })
  ]

  split_length :
      {jobs : List Job} (before after : List Job) (j : Job)
      → jobs ≡ before ++ j ∷ after
      → length jobs ≡ length before + length after + 1
  split_length before after j e = omega (arith, ap length e, length-append before (j ∷ after))

  one_if_le : (b : Bool) → one_if b ≤ 1
  one_if_le true = omega arith
  one_if_le false = omega arith

  moved :
      (s : Service) (before after : List Job) (i j : Job)
      → s.jobs ≡ before ++ i ∷ after
      → IsExclusive s
      → {cs : _} → IsExclusive (record s { jobs = before ++ j ∷ after; comments = cs })
  moved s before after i j e h = record {
    held =
        let held = h.held in
        omega (arith, held, split_length before after i e, length-append before (j ∷ after));
  }

  Step-IsExclusive : {s t : Service} → Step s t → IsExclusive s → IsExclusive t
  Step-IsExclusive (submit invalid req s) h = submit-IsExclusive invalid req s h
  Step-IsExclusive (call invalid s) h = begin-IsExclusive invalid s h
  Step-IsExclusive (return s l) h = record {
    held = let le = one_if_le s.busy in let held = h.held in omega (arith, le, held, l);
  }
  Step-IsExclusive (acknowledge s before after req e) h =
      moved s before after (job req accepted) (job req sweeping) e h
  Step-IsExclusive (close s before after req outcome e) h =
      moved s before after (job req sweeping) (job req closing) e h
  Step-IsExclusive (release s before after req e) h = record {
    held =
        let le = one_if_le s.busy in
        let held = h.held in
        omega (
          arith,
          le,
          held,
          split_length before after (job req closing) e,
          length-append before after,
        );
  }

  Reach-IsExclusive : {s : Service} → Reach s → IsExclusive s
  Reach-IsExclusive begin = record { held = refl }
  Reach-IsExclusive (next r s) = Step-IsExclusive s (Reach-IsExclusive r)

  finished :
      (s : Service) (req : SubmitRequest) (phase : Phase)
      → s.jobs ≡ job req phase ∷ []
      → (t : Service) × Steps s t × (t.busy ≡ false)
  finished s req closing e = (_, step_then (release s [] [] req e) done, refl)
  finished s req sweeping e = (
    _,
    step_then (close s [] [] req (err []) e) (step_then (release _ [] [] req refl) done),
    refl,
  )
  finished s req accepted e = (
    _,
    step_then (acknowledge s [] [] req e)
        (step_then (close _ [] [] req (err []) refl) (step_then (release _ [] [] req refl) done)),
    refl,
  )

  held_ends :
      (s : Service) (n : ℕ) (js : List Job)
      → s.calls ≡ n
      → s.jobs ≡ js
      → n + length js ≡ 1
      → (t : Service) × Steps s t × (t.busy ≡ false)
  held_ends s (suc n) js e f h = (_, step_then (return s (omega arith)) done, refl)
  held_ends s zero (j ∷ []) e f h = finished s j.request j.phase f
  held_ends s zero [] e f h = absurd (omega arith)
  held_ends s zero (j ∷ i ∷ js) e f h = absurd (omega arith)

  -- In every interleaving at most one call or background run holds the place, none does where it is
  -- free, and from every state that is reached there are steps after which it is free.
  pub one_run_at_a_time :
      {s : Service}
      → Reach s
      → (holders s ≤ 1)
        × (s.busy ≡ false → holders s ≡ 0)
        × ((t : Service) × Steps s t × (t.busy ≡ false))
  one_run_at_a_time {s} r =
      let h = (Reach-IsExclusive r).held in
      let le = one_if_le s.busy in
      (
        omega (arith, h, le),
        (λ f. h ∙ ap one_if f),
        elim (Bool-cases s.busy) [
          | inr f ↦ (s, done, f)
          | inl b ↦ held_ends s s.calls s.jobs refl refl (h ∙ ap one_if b)
        ],
      )
