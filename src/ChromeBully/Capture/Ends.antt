-- ===== src/ChromeBully/Capture/Ends.antt =====
-- How capture and run end, where one frame is captured.
use gubal.Common.{
  ◌∙◌, zero, suc, if◌then◌else◌, ℕ, ◌≤◌, ◌<◌, Bool, true, false, List, [], ◌++◌, Option, none, some,
  ◌≡◌, refl, arith, Bytes, bytes, ◌==◌, Bool-cases, inl, inr, All,
}
use gubal.Common.Errors.{Error}
use gubal.ChromeBully.{frame_name}
use gubal.ChromeBully.Driver.{
  Driver, Action, Outcome, returned, failed, starved, Ran, D, pure, in_tab, ◌>>=◌,
}
use gubal.ChromeBully.Capture.{
  Flags, shows, ticked, setup_actions, wait_for_text, awaited, frame, closed, closing, capture,
}
use gubal.ChromeBully.Capture.Waiting.{page_text}
use gubal.ChromeBully.Capture.Rules.{
  Any, Fine, Quiet, Runs, Runs-pure, Runs-raise, Runs-call, Runs-in_tab, Runs-checked, Runs-check,
  Runs-bind,
}

-- What the time of a context does: a measure of what is left of it, no more than `limit` in a tab
-- that is just opened, which the calls in the tab do not lengthen and each tick shortens.
pub record Clock (d : Driver) (f : Flags) (limit : ℕ) : Type 0 where
  pub left : d.World → ℕ
  pub opened : (w : d.World) → left (d.open_tab f.timeout w).1 ≤ limit
  pub loaded : (actions : List Action) (w : d.World) → left (d.run_actions actions w).1 ≤ left w
  pub evaluated : (q : Bytes) (w : d.World) → left (d.evaluate q w).1 ≤ left w
  pub ticked : (w : d.World) → (d.next_tick w).0.0 ≡ none → left (d.next_tick w).1 < left w

module _ (d : Driver) (f : Flags) where
  -- The cleanup changes nothing but the world.
  closed_runs :
      {A : Type 0} (Q : A → Type 0) (r : Ran d A) (o : Outcome A)
      → Fine {W = d.World} (λ a _. Q a) o r.world
      → All Quiet r.lines
      → Fine {W = d.World} (λ a _. Q a) (closed d f r o).outcome (closed d f r o).world
        × All Quiet (closed d f r o).lines
  closed_runs Q r (returned a) p q = (p, q)
  closed_runs Q r (failed e) p q = (p, q)
  closed_runs Q r starved p q = absurd p

  closing-Runs :
      {A : Type 0} (Q : A → Type 0) (m : D d A)
      → Runs Any (λ a _. Q a) m
      → Runs Any (λ a _. Q a) (closing d f m)
  closing-Runs Q m r = record {
    at = λ w p. let (p', q) = r.at w p in closed_runs Q (m w) (m w).outcome p' q;
  }

  -- a file of a frame of this version was written without an error
  abbrev pub Written : Bytes → Bytes → Type 0
  Written version path =
      (stamp : Bytes) × (buf : Bytes) × (v : d.World) × (path
        ≡ d.join_path f.out_dir (frame_name version stamp))
      × ((d.write_file path buf v).0.0 ≡ none)

  module _ {limit : ℕ} (clock : Clock d f limit) (fuel : ℕ) (enough : limit < fuel) where
    ticked-Runs :
        (n : ℕ) (want : Bytes) (t : Option Error) (rest : D d Unit)
        → Runs (λ w. clock.left w < n) (λ _. Any) rest
        → Runs (λ w. t ≡ none → clock.left w < n) (λ _. Any) (ticked d f want t rest)
    ticked-Runs n want none rest r = record { at = λ w p. r.at w (p refl) }
    ticked-Runs n want (some e) rest r = Runs-raise _ _

    shown-Runs :
        (n : ℕ) (want : Bytes) (b : Bool) (rest : D d Unit)
        → Runs (λ w. clock.left w < n) (λ _. Any) rest
        → Runs
            (λ w. clock.left w < suc n)
            (λ _. Any)
            (if b then pure tt else in_tab d.next_tick >>= λ t. ticked d f want t rest)
    shown-Runs n want true rest r = Runs-pure _ tt (λ w p. tt)
    shown-Runs n want false rest r =
        Runs-bind _ _ _
          (Runs-in_tab (λ t w. t ≡ none → clock.left w < n) d.next_tick
            (λ w p q. omega (arith, clock.ticked w q, p)))
          (λ t. ticked-Runs n want t rest r)

    waiting-Runs :
        (n : ℕ) (want : Bytes) → Runs (λ w. clock.left w < n) (λ _. Any) (wait_for_text d f n want)
    unfolding wait_for_text
    waiting-Runs zero want = record { at = λ w p. absurd (omega (arith, p)) }
    waiting-Runs (suc n) want =
        Runs-bind _ _ _
          (Runs-in_tab (λ _ w. clock.left w < suc n) (d.evaluate page_text)
            (λ w p. omega (arith, clock.evaluated page_text w, p)))
          (λ r. shown-Runs n want (shows want r) (wait_for_text d f n want) (waiting-Runs n want))

    awaited-Runs : Runs (λ w. clock.left w ≤ limit) (λ _. Any) (awaited d f fuel)
    awaited-Runs = elim (Bool-cases (f.expect_text == [])) [
      | inl e ↦ rw e (Runs-pure _ tt (λ w p. tt))
      | inr e ↦
          rw e (record {
            at = λ w p. (waiting-Runs fuel f.expect_text).at w (omega (arith, p, enough));
          })
    ]

    frame-Runs :
        (headers : List (Bytes × Bytes)) (version : Bytes)
        → Runs
            (λ w. clock.left w ≤ limit)
            (λ path _. Written version path)
            (frame d f fuel headers version)
    frame-Runs headers version =
        Runs-bind _ _ _
          (Runs-in_tab (λ _ w. clock.left w ≤ limit) (d.run_actions (setup_actions f headers))
            (λ w p. omega (arith, clock.loaded (setup_actions f headers) w)))
          (λ loaded.
            Runs-bind _ _ _
              (Runs-check (λ _ w. clock.left w ≤ limit) (bytes "loading " ++ f.target_url) loaded
                (λ w e p. p))
              (λ _. Runs-bind _ _ _ awaited-Runs (λ _.
                Runs-bind _ _ _ (Runs-in_tab (λ _. Any) (d.full_screenshot 100) (λ w p. tt))
                  (λ shot.
                    Runs-bind _ _ _
                      (Runs-checked (λ _. Any) (bytes "screenshotting " ++ f.target_url) shot
                        (λ a w e p. tt))
                      (λ buf.
                        Runs-bind _ _ _ (Runs-in_tab (λ _. Any) d.time_stamp (λ w p. tt)) (λ stamp.
                          let path = d.join_path f.out_dir (frame_name version stamp) in
                          Runs-bind _ _ _
                            (Runs-in_tab
                              (λ r _. (v : d.World) × ((d.write_file path buf v).0.0 ≡ r))
                              (d.write_file path buf) (λ w p. (w, refl)))
                            (λ written.
                              Runs-bind _ _ _
                                (Runs-check
                                  (λ _ _. (v : d.World) × ((d.write_file path buf v).0.0 ≡ none))
                                  (bytes "writing " ++ path) written
                                  (λ w e p. let (v, q) = p in (v, q ∙ e)))
                                (λ _. Runs-pure _ path (λ w p. (stamp, buf, p.0, refl, p.1))))))))))

    pub capture-Runs :
        (headers : List (Bytes × Bytes)) (version : Bytes)
        → Runs Any (λ path _. Written version path) (capture d f fuel headers version)
    unfolding capture
    capture-Runs headers version = closing-Runs _ _ (
        Runs-bind _ _ _
          (Runs-call (λ _ w. clock.left w ≤ limit) (d.open_tab f.timeout) (λ w p. clock.opened w))
          (λ opened.
            Runs-bind _ _ _
              (Runs-check (λ _ w. clock.left w ≤ limit) (bytes "opening tab") opened (λ w e p. p))
              (λ _. frame-Runs headers version)))
