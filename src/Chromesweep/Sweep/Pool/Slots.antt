-- ===== src/Chromesweep/Sweep/Pool/Slots.antt =====
-- The results that the goroutines of sweepBrowsers store: each at its own index of brResults, in any
-- order. What sweepOne may return for a tag is a parameter.
use gubal.Common.{ℕ, ◌<◌, Bool, true, false, List, [], ◌∷◌, ◌++◌, Bytes, length, count}
use gubal.Chromesweep.Report.{SweepResult}
use gubal.Chromesweep.Sweep.Pool.{Pool, bound, places}

-- a goroutine that has not stored its result, that has, and that has given its place back
pub data Slot : Type 0 where
  sweeping : Bytes → Slot
  holding finished : Bytes → SweepResult → Slot

-- the tags whose goroutines are not started, and the goroutines that are, by their index
pub record Slots : Type 0 where
  pub queue : List Bytes
  pub slots : List Slot

abbrev pub is_sweeping : Slot → Bool
is_sweeping (sweeping t) = true
is_sweeping _ = false

abbrev pub is_holding : Slot → Bool
is_holding (holding t r) = true
is_holding _ = false

abbrev pub is_finished : Slot → Bool
is_finished (finished t r) = true
is_finished _ = false

-- the counts of a pool
abbrev pub counted : List Slot → Pool
counted slots = record {
  started = length slots;
  running = count is_sweeping slots;
  leaving = count is_holding slots;
  left = count is_finished slots;
}

-- what brResults holds once every goroutine has given its place back
abbrev pub stored : List Slot → List SweepResult
stored [] = []
stored (finished t r ∷ slots) = r ∷ stored slots
stored (_ ∷ slots) = stored slots

abbrev pub tag_of : Slot → Bytes
tag_of (sweeping t) = t
tag_of (holding t r) = t
tag_of (finished t r) = t

module _ (May : Bytes → SweepResult → Type 0) (parallelism : ℕ) where
  pub data Moves : Slots → Slots → Type 0 where
    starts :
        (t : Bytes) (queue : List Bytes) (slots : List Slot)
        → places (counted slots) < bound parallelism
        → Moves
            (record { queue = t ∷ queue; slots = slots })
            (record { queue = queue; slots = slots ++ sweeping t ∷ [] })
    stores :
        (t : Bytes) (r : SweepResult) (queue : List Bytes) (xs ys : List Slot)
        → May t r
        → Moves
            (record { queue = queue; slots = xs ++ sweeping t ∷ ys })
            (record { queue = queue; slots = xs ++ holding t r ∷ ys })
    leaves :
        (t : Bytes) (r : SweepResult) (queue : List Bytes) (xs ys : List Slot)
        → Moves
            (record { queue = queue; slots = xs ++ holding t r ∷ ys })
            (record { queue = queue; slots = xs ++ finished t r ∷ ys })

  pub data Sweeps (tags : List Bytes) : Slots → Type 0 where
    none_started : Sweeps tags (record { queue = tags; slots = [] })
    moved : {s t : Slots} → Sweeps tags s → Moves s t → Sweeps tags t

  -- one result for each tag, in their order
  abbrev pub InOrder : List Bytes → List SweepResult → Type 0
  InOrder [] [] = Unit
  InOrder [] (r ∷ rs) = ⊥
  InOrder (t ∷ tags) [] = ⊥
  InOrder (t ∷ tags) (r ∷ rs) = May t r × InOrder tags rs
