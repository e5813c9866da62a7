-- ===== src/Chromesweep/Sweep/Pool.antt =====
-- The bounded pool of sweepBrowsers as steps of the main loop and its goroutines: the loop takes a
-- place in the channel `sem`, which blocks while it is full, and starts a goroutine; a goroutine
-- stores its result at its index and then gives its place back.
pub mod Slots
pub mod Counts
pub mod Refine
use native.Mathlib.Decide.{dec_lt}
use gubal.Common.{
  ℕ, zero, suc, ◌+◌, ◌-◌, ◌≤◌, ◌<◌, ◌≡◌, refl, arith, ltb, if◌then◌else◌, ◌⊎◌, inl, inr, ◌*◌,
}

-- cfg.Parallelism, at least 1
unfoldable pub bound : ℕ → ℕ
bound parallelism = if ltb parallelism 1 then 1 else parallelism

-- `started` goroutines have been started, `running` of them have not stored their result,
-- `leaving` have stored it and still hold their place
pub record Pool : Type 0 where
  pub started : ℕ
  pub running : ℕ
  pub leaving : ℕ
  pub left : ℕ

abbrev pub empty : Pool
empty = record { started = 0; running = 0; leaving = 0; left = 0 }

-- places taken in `sem`
abbrev pub places : Pool → ℕ
places p = p.running + p.leaving

module _ (versions parallelism : ℕ) where
  pub data Step : Pool → Pool → Type 0 where
    start :
        (p : Pool)
        → p.started < versions
        → places p < bound parallelism
        → Step p (record p { started = p.started + 1; running = p.running + 1 })
    store :
        (p : Pool)
        → 0 < p.running
        → Step p (record p { running = p.running - 1; leaving = p.leaving + 1 })
    leave :
        (p : Pool)
        → 0 < p.leaving
        → Step p (record p { leaving = p.leaving - 1; left = p.left + 1 })

  pub data Reach : Pool → Type 0 where
    begin : Reach empty
    next : {p q : Pool} → Reach p → Step p q → Reach q

  -- wg.Wait returns: all are started, and none holds a place
  abbrev pub IsDone : Pool → Type 0
  IsDone p = (p.started ≡ versions) × (places p ≡ 0)

  pub record IsBounded (p : Pool) : Type 0 where
    pub within : places p ≤ bound parallelism
    pub started : p.started ≤ versions
    pub counted : p.started ≡ p.running + p.leaving + p.left

  Step-IsBounded : {p q : Pool} → Step p q → IsBounded p → IsBounded q
  Step-IsBounded (start p h k) b = omega arith
  Step-IsBounded (store p h) b = omega arith
  Step-IsBounded (leave p h) b = omega arith

  -- In every interleaving at most the bound of versions are swept at once.
  pub Reach-IsBounded : {p : Pool} → Reach p → IsBounded p
  Reach-IsBounded begin = unfold bound in ground arith
  Reach-IsBounded (next r s) = Step-IsBounded s (Reach-IsBounded r)

  bound_pos : 0 < bound parallelism
  unfolding bound
  bound_pos = ground arith

  -- steps that a pool has yet to make
  abbrev pub remaining : Pool → ℕ
  remaining p = 3 * (versions - p.started) + (2 * p.running + p.leaving)

  Step-remaining : {p q : Pool} → Step p q → remaining q + 1 ≡ remaining p
  Step-remaining (start p h k) = omega arith
  Step-remaining (store p h) = omega arith
  Step-remaining (leave p h) = omega arith

  -- The pool never runs more versions at once than the bound, which is at least one; a pool that is
  -- not done can make a step, each step leaves one less to make, and a pool with none left to make is
  -- done: every interleaving ends, after three steps for each version.
  pub pool_progress :
      {p : Pool}
      → Reach p
      → (places p ≤ bound parallelism)
        × ((IsDone p) ⊎ ((q : Pool) × Step p q))
        × ((q : Pool) → Step p q → remaining q + 1 ≡ remaining p)
  pool_progress {p} r =
      let b = Reach-IsBounded r in
      (b.within, advance b p.running p.leaving refl refl, λ q s. Step-remaining s)
    where
      advance :
          IsBounded p
          → (m n : ℕ) → p.running ≡ m
          → p.leaving ≡ n
          → (IsDone p) ⊎ ((q : Pool) × Step p q)
      advance b (suc m) n e f = inr (_, store p (omega arith))
      advance b zero (suc n) e f = inr (_, leave p (omega arith))
      advance b zero zero e f = elim (dec_lt p.started versions) [
        | yes lt ↦ inr (_, start p lt (omega (arith, bound_pos)))
        | no ge ↦ inl (omega arith)
      ]
