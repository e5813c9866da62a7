-- ===== src/Chromesweep/Sweep/Pool/Refine.antt =====
-- The goroutines of sweepBrowsers, in any order, against the loop that sweeps one tag after another.
use gubal.Common.{
  ok, map, ℕ, ◌+◌, List, [], ◌∷◌, ◌++◌, ◌≡◌, refl, sym, ap, ◌∙◌, arith, Bytes, length, count,
  length-append, length-map, append-nil, All, All-append, All-split,
}
use gubal.Chromesweep.Report.{SweepResult}
use gubal.Chromesweep.Host.{Host, State, pure, ◌>>=◌}
use gubal.Chromesweep.Host.Returns.{continue_ok}
use gubal.Chromesweep.Sweep.{Pass, sweep_one}
use gubal.Chromesweep.Sweep.Run.{sweep_versions}
use gubal.Chromesweep.Sweep.Pool.{start, Reach, begin, next, IsDone}
use gubal.Chromesweep.Sweep.Pool.Slots.{
  Slot, sweeping, holding, finished, Slots, is_sweeping, is_holding, counted, stored, tag_of,
}
use gubal.Chromesweep.Sweep.Pool.Slots.{
  Moves, starts, stores, leaves, Sweeps, none_started, moved, InOrder,
}
use gubal.Chromesweep.Sweep.Pool.Counts.{
  counted_start, counted_at, store_step, leave_step, tags_at, tags_start,
}

module _ (May : Bytes → SweepResult → Type 0) (parallelism : ℕ) where
  abbrev Fits : Slot → Type 0
  Fits (sweeping t) = Unit
  Fits (holding t r) = May t r
  Fits (finished t r) = May t r

  record IsSound (tags : List Bytes) (s : Slots) : Type 0 where
    pub reach : Reach (length tags) parallelism (counted s.slots)
    pub all_tags : map tag_of s.slots ++ s.queue ≡ tags
    pub fits : All Fits s.slots

  Moves-IsSound :
      (tags : List Bytes) {s t : Slots}
      → Moves May parallelism s t
      → IsSound tags s
      → IsSound tags t
  Moves-IsSound tags (starts t queue slots room) i = record {
    reach = next i.reach (
        rw (← counted_start t slots) (
          start (counted slots)
            (omega (
              arith,
              length-append (map tag_of slots) (t ∷ queue),
              ap length i.all_tags,
              length-map tag_of slots,
            ))
            room));
    all_tags = tags_start t slots queue ∙ i.all_tags;
    fits = All-append Fits slots (sweeping t ∷ []) i.fits (tt, tt);
  }
  Moves-IsSound tags (stores t r queue xs ys may) i = record {
    reach =
        let reached = rw (counted_at (sweeping t) xs ys) at i.reach in
        rw (counted_at (holding t r) xs ys)
          (next reached (store_step _ _ _ _ refl (omega arith) (omega arith) (omega arith)));
    all_tags = ap (λ ts. ts ++ queue) (tags_at (holding t r) (sweeping t) xs ys refl) ∙ i.all_tags;
    fits =
        let (front, (_, back)) = All-split Fits xs (sweeping t ∷ ys) i.fits in
        All-append Fits xs (holding t r ∷ ys) front (may, back);
  }
  Moves-IsSound tags (leaves t r queue xs ys) i = record {
    reach =
        let reached = rw (counted_at (holding t r) xs ys) at i.reach in
        rw (counted_at (finished t r) xs ys)
          (next reached (leave_step _ _ _ _ refl (omega arith) (omega arith) (omega arith)));
    all_tags =
        ap (λ ts. ts ++ queue) (tags_at (finished t r) (holding t r) xs ys refl) ∙ i.all_tags;
    fits =
        let (front, (may, back)) = All-split Fits xs (holding t r ∷ ys) i.fits in
        All-append Fits xs (finished t r ∷ ys) front (may, back);
  }

  Sweeps-IsSound : (tags : List Bytes) {s : Slots} → Sweeps May parallelism tags s → IsSound tags s
  Sweeps-IsSound tags none_started = record { reach = begin; all_tags = refl; fits = tt }
  Sweeps-IsSound tags (moved r m) = Moves-IsSound tags m (Sweeps-IsSound tags r)

  in_order :
      (slots : List Slot)
      → All Fits slots
      → count is_sweeping slots + count is_holding slots ≡ 0
      → InOrder May parallelism (map tag_of slots) (stored slots)
  in_order [] f e = tt
  in_order (sweeping t ∷ slots) f e = absurd (omega (arith, e))
  in_order (holding t r ∷ slots) f e = absurd (omega (arith, e))
  in_order (finished t r ∷ slots) (p, f) e = (p, in_order slots f (omega (arith, e)))

  -- the loop of the model of a run, which sweeps one tag after another
  sweep_versions-InOrder :
      (h : Host) (p : Pass)
      → ((t : Bytes) (s : State h) (r : SweepResult) → (sweep_one h p t s).0 ≡ ok r → May t r)
      → (tags : List Bytes) (s : State h) {rs : List SweepResult}
      → (sweep_versions h p tags s).0 ≡ ok rs
      → InOrder May parallelism tags rs
  unfolding sweep_versions ◌>>=◌ pure
  sweep_versions-InOrder h p may [] s {rs} e = let same : [] ≡ rs = cc e in rw (← same) tt
  sweep_versions-InOrder h p may (t ∷ tags) s {rs} e =
      let (r, here, e1) = continue_ok (sweep_one h p t s).0 _ (sweep_one h p t s).1 rs e in
      let s1 = (sweep_one h p t s).1 in
      let (rest, there, e2) = continue_ok (sweep_versions h p tags s1).0 _ _ rs e1 in
      let same : r ∷ rest ≡ rs = cc e2 in
      rw (← same) (may t s r here, sweep_versions-InOrder h p may tags s1 there)

  -- Every state of the goroutines is one of the pool by its counts, and when the pool is done, in
  -- whatever order they ran and stored, there is one result for each tag, in the order of the tags,
  -- and each is one that a sweep of its tag may return; and where what sweepOne returns by itself is
  -- among these, so it is for the loop that sweeps one tag after another.
  pub slots_refine :
      (h : Host) (p : Pass)
      → ((t : Bytes) (s : State h) (r : SweepResult) → (sweep_one h p t s).0 ≡ ok r → May t r)
      → (tags : List Bytes) {s : Slots} → Sweeps May parallelism tags s
      → Reach (length tags) parallelism (counted s.slots)
        × (IsDone (length tags) parallelism (counted s.slots)
            → InOrder May parallelism tags (stored s.slots))
        × ((w : State h) (rs : List SweepResult)
            → (sweep_versions h p tags w).0 ≡ ok rs
            → InOrder May parallelism tags rs)
  slots_refine h p may tags {s} r =
      let i = Sweeps-IsSound tags r in
      (
        i.reach,
        λ (all, idle).
            let joined = length-append (map tag_of s.slots) s.queue in
            let none_left : s.queue ≡ [] =
              no_length s.queue
                (omega (arith, joined, ap length i.all_tags, length-map tag_of s.slots, all)) in
            let tags_are : map tag_of s.slots ≡ tags =
              sym (append-nil (map tag_of s.slots))
              ∙ ap (λ q. map tag_of s.slots ++ q) (sym none_left)
              ∙ i.all_tags in
            let ordered = in_order s.slots i.fits idle in rw tags_are at ordered,
        λ w rs e. sweep_versions-InOrder h p may tags w e,
      )
    where
      no_length : (ts : List Bytes) → length ts ≡ 0 → ts ≡ []
      no_length [] e = refl
      no_length (t ∷ ts) e = absurd (omega (arith, e))
