-- ===== src/ChromeBully/Capture/Waiting.antt =====
-- How waitForText ends.
use gubal.Common.{
  ℕ, zero, suc, ◌≤◌, ◌<◌, true, none, some, ◌≡◌, refl, arith, Bytes, bytes, Result, ok, err,
  Bool-cases, Option-cases, ◌⊎◌, inl, inr,
}
use gubal.Common.Errors.{Error}
use gubal.Strings.{contains}
use gubal.ChromeBully.Driver.{Driver, Outcome, returned, failed}
use gubal.ChromeBully.Capture.{Flags, shows, timed_out, wait_for_text}

abbrev pub page_text : Bytes
page_text = bytes "document.documentElement.innerText"

shows_text :
    (want : Bytes) (r : Result Error Bytes)
    → shows want r ≡ true
    → (txt : Bytes) × (r ≡ ok txt) × (contains txt want ≡ true)
shows_text want (ok txt) e = (txt, refl, e)
shows_text want (err x) e = cc

module _ (d : Driver) (f : Flags) where
  -- an evaluation gave a text that holds the expected one
  abbrev pub Seen : Bytes → Type 0
  Seen want =
      (v : d.World) × (txt : Bytes) × ((d.evaluate page_text v).0.0 ≡ ok txt)
      × (contains txt want ≡ true)

  -- the context was done, with this error
  abbrev pub Done : Error → Type 0
  Done e = (v : d.World) × ((d.next_tick v).0.0 ≡ some e)

  abbrev pub Ends : Bytes → Outcome Unit → Type 0
  Ends want o =
      ((o ≡ returned tt) × Seen want) ⊎ ((e : Error) × (o ≡ failed (timed_out d f want e)) × Done e)

  -- If an evaluation does not lengthen what is left of the context's time and a tick before its end
  -- shortens it, then waiting ends within as many evaluations as there is time left, and one more:
  -- either without an error, after an evaluation whose text holds the expected one, or with the error
  -- of a context that is done.
  pub wait_for_text-Ends :
      (left : d.World → ℕ)
      → ((q : Bytes) (w : d.World) → left (d.evaluate q w).1 ≤ left w)
      → ((w : d.World) → (d.next_tick w).0.0 ≡ none → left (d.next_tick w).1 < left w)
      → (fuel : ℕ) (want : Bytes) (w : d.World) → left w < fuel
      → Ends want (wait_for_text d f fuel want w).outcome
  unfolding wait_for_text
  wait_for_text-Ends left ev ti zero want w h = absurd (omega arith)
  wait_for_text-Ends left ev ti (suc fuel) want w h =
      let v = (d.evaluate page_text w).1 in
      elim (Bool-cases (shows want (d.evaluate page_text w).0.0)) [
        | inl s ↦
            let (txt, e, c) = shows_text want (d.evaluate page_text w).0.0 s in
            rw (wait_for_text, s) (inl (refl, (w, txt, e, c)))
        | inr s ↦ elim (Option-cases (d.next_tick v).0.0) [
          | inl n ↦
              let less : left (d.next_tick v).1 < fuel = omega (arith, ev page_text w, ti v n, h) in
              rw (wait_for_text, s, n)
                (wait_for_text-Ends left ev ti fuel want (d.next_tick v).1 less)
          | inr (e, n) ↦ rw (wait_for_text, s, n) (inr (e, refl, (v, n)))
        ]
      ]
