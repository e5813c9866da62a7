-- ===== src/Chromesweep/Report/Groups.antt =====
-- The grouping that RenderMarkdown makes by policy and renderBrowserGroups by browser: the slice
-- `order` and the map of a key to its results are one list of keys with their results.
use gubal.Common.{
  true, false, List, [], ◌∷◌, ◌++◌, ◌≡◌, refl, ap, sym, ◌∙◌, arith, Bytes, ◌==◌, ==_iff,
  if◌then◌else◌, map, member, Distinct, append-nil, append_assoc, Bool-cases, inl, inr,
}
use gubal.Common.Keys.{first_seen, first_seen_old, first_seen_new, first_seen-Distinct}
use gubal.Chromesweep.Report.{SweepResult}

abbrev pub Groups : Type 0
Groups = List (Bytes × List SweepResult)

module _ (key : SweepResult → Bytes) where
  -- one round of the loop
  unfoldable pub add_result : SweepResult → Groups → Groups
  add_result r [] = (key r, r ∷ []) ∷ []
  add_result r ((k, rs) ∷ groups) =
      if k == key r then (k, rs ++ r ∷ []) ∷ groups else (k, rs) ∷ add_result r groups

  unfoldable pub group_loop : Groups → List SweepResult → Groups
  group_loop groups [] = groups
  group_loop groups (r ∷ rs) = group_loop (add_result r groups) rs

  unfoldable pub group_by : List SweepResult → Groups
  unfolding group_loop add_result
  group_by results = group_loop [] results

  -- the results with a key, in their order
  abbrev pub with_key : Bytes → List SweepResult → List SweepResult
  with_key k [] = []
  with_key k (r ∷ rs) = if key r == k then r ∷ with_key k rs else with_key k rs

abbrev pub group_of : Bytes → Groups → List SweepResult
group_of k [] = []
group_of k ((j, rs) ∷ groups) = if j == k then rs else group_of k groups

abbrev pub group_keys : Groups → List Bytes
group_keys = map (λ (k, rs). k)

module _ (key : SweepResult → Bytes) where
  group_of-add_result :
      (k : Bytes) (r : SweepResult) (groups : Groups)
      → group_of k (add_result key r groups)
        ≡ (if key r == k then group_of k groups ++ r ∷ [] else group_of k groups)
  unfolding add_result
  group_of-add_result k r [] = ground arith
  group_of-add_result k r ((j, rs) ∷ groups) =
      ground (arith, group_of-add_result k r groups, ==_iff j (key r), ==_iff j k, ==_iff (key r) k)

  group_of-group_loop :
      (k : Bytes) (groups : Groups) (rs : List SweepResult)
      → group_of k (group_loop key groups rs) ≡ group_of k groups ++ with_key key k rs
  unfolding group_loop
  group_of-group_loop k groups [] = sym (append-nil (group_of k groups))
  group_of-group_loop k groups (r ∷ rs) = ground (
    arith,
    group_of-group_loop k (add_result key r groups) rs,
    group_of-add_result k r groups,
    append_assoc (group_of k groups) (r ∷ []) (with_key key k rs),
  )

  keys-add_result_old :
      (r : SweepResult) (groups : Groups)
      → member (key r) (group_keys groups) ≡ true
      → group_keys (add_result key r groups) ≡ group_keys groups
  unfolding add_result
  keys-add_result_old r [] h = cc
  keys-add_result_old r ((j, rs) ∷ groups) h = ground (arith, keys-add_result_old r groups)

  keys-add_result_new :
      (r : SweepResult) (groups : Groups)
      → member (key r) (group_keys groups) ≡ false
      → group_keys (add_result key r groups) ≡ group_keys groups ++ key r ∷ []
  unfolding add_result
  keys-add_result_new r [] h = refl
  keys-add_result_new r ((j, rs) ∷ groups) h = ground (arith, keys-add_result_new r groups)

  keys-group_loop :
      (groups : Groups) (rs : List SweepResult)
      → group_keys (group_loop key groups rs)
        ≡ group_keys groups ++ first_seen (group_keys groups) (map key rs)
  unfolding group_loop
  keys-group_loop groups [] = unfold first_seen in sym (append-nil (group_keys groups))
  keys-group_loop groups (r ∷ rs) = elim (Bool-cases (member (key r) (group_keys groups))) [
    | inl h ↦ rw (first_seen_old (group_keys groups) (key r) (map key rs) h) (
        keys-group_loop (add_result key r groups) rs
        ∙ ap (λ l. l ++ first_seen l (map key rs)) (keys-add_result_old r groups h))
    | inr h ↦ rw (first_seen_new (group_keys groups) (key r) (map key rs) h) (
        keys-group_loop (add_result key r groups) rs
        ∙ ap (λ l. l ++ first_seen l (map key rs)) (keys-add_result_new r groups h)
        ∙ append_assoc (group_keys groups) (key r ∷ [])
            (first_seen (group_keys groups ++ key r ∷ []) (map key rs)))
  ]

  -- The groups stand in the order in which their keys are first seen, no key twice, and a key's
  -- group is all the results with that key, in their order.
  pub group_by_lem :
      (rs : List SweepResult)
      → (group_keys (group_by key rs) ≡ first_seen [] (map key rs))
        × Distinct (group_keys (group_by key rs))
        × ((k : Bytes) → group_of k (group_by key rs) ≡ with_key key k rs)
  unfolding group_by
  group_by_lem rs = (
    keys-group_loop [] rs,
    rw (keys-group_loop [] rs) (first_seen-Distinct [] (map key rs) tt),
    λ k. group_of-group_loop k [] rs,
  )
