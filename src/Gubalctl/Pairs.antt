-- ===== src/Gubalctl/Pairs.antt =====
-- A list of policies as the map that gubalctl sends, and that map sorted again.
use gubal.Common.{
  false, List, [], ◌∷◌, ◌≡◌, inl, inr, refl, ap, arith, Bytes, ==_refl, ==_comm, less, map, member,
  Distinct, All, Bool-cases,
}
use mathlib.Core.Path.{ap₂}
use gubal.Chromesweep.Policies.{
  Policy, insert_policy, sort_policies, insert_name, sort_names, policies_from_map,
}
use gubal.Chromesweep.Policies.Order.{names}
use gubal.Gubalctl.{get, string_map}

abbrev pub pair : Policy → Bytes × Bytes
pair p = (p.name, p.content)

names-insert_policy :
    (p : Policy) (ps : List Policy) → names (insert_policy p ps) ≡ insert_name p.name (names ps)
unfolding insert_policy insert_name
names-insert_policy p [] = refl
names-insert_policy p (q ∷ ps) = ground (arith, names-insert_policy p ps)

names-sort_policies : (ps : List Policy) → names (sort_policies ps) ≡ sort_names (names ps)
unfolding sort_policies sort_names
names-sort_policies [] = refl
names-sort_policies (p ∷ ps) = rw (names-insert_policy, names-sort_policies ps)

insert_policy-All :
    (P : Policy → Type 0) (p : Policy) (ps : List Policy)
    → P p
    → All P ps
    → All P (insert_policy p ps)
unfolding insert_policy
insert_policy-All P p [] h _ = (h, tt)
insert_policy-All P p (q ∷ ps) h (k, hs) = elim (Bool-cases (less q.name p.name)) [
  | inl e ↦ rw e (k, insert_policy-All P p ps h hs)
  | inr e ↦ rw e (h, (k, hs))
]

sort_policies-All : (P : Policy → Type 0) (ps : List Policy) → All P ps → All P (sort_policies ps)
unfolding sort_policies
sort_policies-All P [] _ = tt
sort_policies-All P (p ∷ ps) (h, hs) =
    insert_policy-All P p (sort_policies ps) h (sort_policies-All P ps hs)

abbrev Holds : List (Bytes × Bytes) → Policy → Type 0
Holds m p = get m p.name ≡ p.content

get_later :
    (q : Policy) (ps qs : List Policy)
    → member q.name (names qs) ≡ false
    → All (Holds (map pair ps)) qs
    → All (Holds (pair q ∷ map pair ps)) qs
unfolding get
get_later q ps [] h _ = tt
get_later q ps (p ∷ qs) h (k, ks) =
    (ground (arith, ==_comm p.name q.name), get_later q ps qs (ground arith) ks)

get-pairs : (ps : List Policy) → Distinct (names ps) → All (Holds (map pair ps)) ps
get-pairs [] _ = tt
get-pairs (p ∷ ps) (f, d) =
    (unfold get in rw (==_refl p.name), get_later p ps ps f (get-pairs ps d))

rebuild :
    (m : List (Bytes × Bytes)) (ps : List Policy)
    → All (Holds m) ps
    → map (λ (n : Bytes). let p : Policy = record { name = n; content = get m n } in p) (names ps)
      ≡ ps
rebuild m [] _ = refl
rebuild m (p ∷ ps) (h, hs) =
    ap₂ (λ c r. record { name = p.name; content = c } ∷ r) h (rebuild m ps hs)

keys-pairs : (ps : List Policy) → (string_map (map pair ps)).keys ≡ names ps
unfolding string_map
keys-pairs [] = refl
keys-pairs (p ∷ ps) = ap (λ r. p.name ∷ r) (keys-pairs ps)

-- the map that holds some policies gives them back, sorted
pub policies_from_map-pairs :
    (ps : List Policy)
    → Distinct (names ps)
    → policies_from_map (string_map (map pair ps)) ≡ sort_policies ps
unfolding policies_from_map
policies_from_map-pairs ps d =
    rw (keys-pairs ps, ← names-sort_policies ps)
      (unfold string_map in
        rebuild (map pair ps) (sort_policies ps) (sort_policies-All _ ps (get-pairs ps d)))
