-- ===== src/Chromesweep/Sweep/Pool/Counts.antt =====
-- What a move does to the counts and the tags of the goroutines.
use gubal.Common.{
  ◌-◌, map, ℕ, suc, ◌+◌, List, [], ◌∷◌, ◌++◌, ◌≡◌, refl, ap, arith, Bytes, length, count,
  count-append, length-append,
}
use gubal.Chromesweep.Sweep.Pool.{Pool, Step, store, leave}
use gubal.Chromesweep.Sweep.Pool.Slots.{
  Slot, sweeping, is_sweeping, is_holding, is_finished, counted, tag_of,
}

pub pool_eq :
    {a b c d a' b' c' d' : ℕ}
    → a ≡ a'
    → b ≡ b'
    → c ≡ c'
    → d ≡ d'
    → ◌≡◌ {A = Pool}
        (record { started = a; running = b; leaving = c; left = d })
        (record { started = a'; running = b'; leaving = c'; left = d' })
pool_eq e f g h = rw (e, f, g, h) refl

-- the counts when one goroutine starts, and when one moves on
pub counted_start :
    (t : Bytes) (slots : List Slot)
    → record (counted slots) { started = length slots + 1; running = count is_sweeping slots + 1 }
      ≡ counted (slots ++ sweeping t ∷ [])
counted_start t slots =
    pool_eq (omega (arith, length-append slots (sweeping t ∷ [])))
      (omega (arith, count-append is_sweeping slots (sweeping t ∷ [])))
      (omega (arith, count-append is_holding slots (sweeping t ∷ [])))
      (omega (arith, count-append is_finished slots (sweeping t ∷ [])))

-- steps by what they do to the counts
pub store_step :
    (n k : ℕ) (p q : Pool)
    → p.started ≡ q.started
    → p.running ≡ q.running + 1
    → p.leaving + 1 ≡ q.leaving
    → p.left ≡ q.left
    → Step n k p q
store_step n k p q a b c d =
    let e : record p { running = p.running - 1; leaving = p.leaving + 1 } ≡ q =
      pool_eq a (omega (arith, b)) c d in
    rw (← e) (store p (omega (arith, b)))

pub leave_step :
    (n k : ℕ) (p q : Pool)
    → p.started ≡ q.started
    → p.running ≡ q.running
    → p.leaving ≡ q.leaving + 1
    → p.left + 1 ≡ q.left
    → Step n k p q
leave_step n k p q a b c d =
    let e : record p { leaving = p.leaving - 1; left = p.left + 1 } ≡ q =
      pool_eq a b (omega (arith, c)) d in
    rw (← e) (leave p (omega (arith, c)))

abbrev pub slots_with : List Slot → Slot → List Slot → List Slot
slots_with xs a ys = xs ++ a ∷ ys

pub counted_at :
    (a : Slot) (xs ys : List Slot)
    → counted (slots_with xs a ys) ≡ record {
      started = length xs + suc (length ys);
      running = count is_sweeping xs + count is_sweeping (a ∷ ys);
      leaving = count is_holding xs + count is_holding (a ∷ ys);
      left = count is_finished xs + count is_finished (a ∷ ys);
    }
counted_at a xs ys =
    pool_eq (length-append xs (a ∷ ys)) (count-append is_sweeping xs (a ∷ ys))
      (count-append is_holding xs (a ∷ ys)) (count-append is_finished xs (a ∷ ys))

pub tags_at :
    (a b : Slot) (xs ys : List Slot)
    → tag_of a ≡ tag_of b
    → map tag_of (slots_with xs a ys) ≡ map tag_of (slots_with xs b ys)
tags_at a b [] ys e = ap (λ t. t ∷ map tag_of ys) e
tags_at a b (x ∷ xs) ys e = ap (λ ts. tag_of x ∷ ts) (tags_at a b xs ys e)

pub tags_start :
    (t : Bytes) (slots : List Slot) (queue : List Bytes)
    → map tag_of (slots ++ sweeping t ∷ []) ++ queue ≡ map tag_of slots ++ t ∷ queue
tags_start t [] queue = refl
tags_start t (x ∷ slots) queue = ap (λ ts. tag_of x ∷ ts) (tags_start t slots queue)
