-- ===== src/Chromesweep/Policies/Order.antt =====
-- The order of the passes: sorted by name, and the same for every order in which Go iterates a map.
use mathlib.Core.List.{Perm, Permᴰ}
use mathlib.Core.List.Perm
use mathlib.Core.Path.{ap₂}
use mathlib.Core.Logic.{∥∥₁_elim}
use gubal.Common.{
  true, false, List, [], ◌∷◌, ◌≡◌, inl, inr, refl, ap, ◌∙◌, arith, Bytes, less, map, Bool-cases,
  All,
}
use gubal.Chromesweep.Policies.{StringMap, Policy, insert_name, sort_names, policies_from_map}

less_irrefl : (s : Bytes) → less s s ≡ false
unfolding less
less_irrefl [] = refl
less_irrefl (c ∷ s) = ground (arith, less_irrefl s)

less_asymm : (s t : Bytes) → less s t ≡ true → less t s ≡ false
unfolding less
less_asymm [] [] h = cc
less_asymm [] (d ∷ t) h = refl
less_asymm (c ∷ s) [] h = cc
less_asymm (c ∷ s) (d ∷ t) h = ground (arith, less_asymm s t)

less_trans : (s t u : Bytes) → less s t ≡ true → less t u ≡ true → less s u ≡ true
unfolding less
less_trans [] [] u h k = cc
less_trans [] (d ∷ t) [] h k = cc
less_trans [] (d ∷ t) (e ∷ u) h k = refl
less_trans (c ∷ s) [] u h k = cc
less_trans (c ∷ s) (d ∷ t) [] h k = cc
less_trans (c ∷ s) (d ∷ t) (e ∷ u) h k = ground (arith, less_trans s t u)

-- neither is below the other only where they are the same
less_connected : (s t : Bytes) → less s t ≡ false → less t s ≡ false → s ≡ t
unfolding less
less_connected [] [] h k = refl
less_connected [] (d ∷ t) h k = cc
less_connected (c ∷ s) [] h k = cc
less_connected (c ∷ s) (d ∷ t) h k = ground (arith, less_connected s t)

insert_name_comm :
    (a b : Bytes) (l : List Bytes)
    → insert_name a (insert_name b l) ≡ insert_name b (insert_name a l)
unfolding insert_name
insert_name_comm a b [] = ground (arith, less_asymm a b, less_connected a b)
insert_name_comm a b (q ∷ l) = ground (
  arith,
  insert_name_comm a b l,
  less_asymm a b,
  less_connected a b,
  less_trans q a b,
  less_trans q b a,
  less_trans a b q,
  less_trans b a q,
)

sort_names-Permᴰ : {xs ys : List Bytes} → Permᴰ xs ys → sort_names xs ≡ sort_names ys
unfolding sort_names
sort_names-Permᴰ Permᴰ.nil = refl
sort_names-Permᴰ (Permᴰ.cons e p) = ap₂ insert_name e (sort_names-Permᴰ p)
sort_names-Permᴰ (Permᴰ.swap {a} {b} {l = l} e f) =
    insert_name_comm a b (sort_names l)
    ∙ ap₂ (λ x y. insert_name x (insert_name y (sort_names l))) f e
sort_names-Permᴰ (Permᴰ.trans p q) = sort_names-Permᴰ p ∙ sort_names-Permᴰ q

names_set : IsSet (List Bytes)
names_set = hlevel

-- The policies of a map are the same in whatever order Go iterates over its keys.
pub policies_from_map-perm :
    (m n : StringMap)
    → Perm m.keys n.keys
    → m.get ≡ n.get
    → policies_from_map m ≡ policies_from_map n
unfolding policies_from_map
policies_from_map-perm m n p e =
    let sorted : sort_names m.keys ≡ sort_names n.keys =
      ∥∥₁_elim p (names_set _ _) sort_names-Permᴰ in
    rw (sorted, e)

-- no text of the list is below the one before it
abbrev pub IsSorted : List Bytes → Type 0
IsSorted [] = Unit
IsSorted (x ∷ xs) = All (λ y. less y x ≡ false) xs × IsSorted xs

pub insert_name-All :
    (P : Bytes → Type 0) (a : Bytes) (l : List Bytes) → P a → All P l → All P (insert_name a l)
unfolding insert_name
insert_name-All P a [] h _ = (h, tt)
insert_name-All P a (q ∷ l) h (k, hs) = elim (Bool-cases (less q a)) [
  | inl e ↦ rw e (k, insert_name-All P a l h hs)
  | inr e ↦ rw e (h, (k, hs))
]

below-All :
    (a q : Bytes) (l : List Bytes)
    → less q a ≡ false
    → All (λ y. less y q ≡ false) l
    → All (λ y. less y a ≡ false) l
below-All a q [] h _ = tt
below-All a q (y ∷ l) h (k, hs) =
    (ground (arith, less_connected q a, less_trans y a q), below-All a q l h hs)

insert_name-IsSorted : (a : Bytes) (l : List Bytes) → IsSorted l → IsSorted (insert_name a l)
unfolding insert_name
insert_name-IsSorted a [] _ = (tt, tt)
insert_name-IsSorted a (q ∷ l) (h, hs) = elim (Bool-cases (less q a)) [
  | inl e ↦ rw e (insert_name-All _ a l (less_asymm q a e) h, insert_name-IsSorted a l hs)
  | inr e ↦ rw e ((e, below-All a q l e h), (h, hs))
]

sort_names-IsSorted : (l : List Bytes) → IsSorted (sort_names l)
unfolding sort_names
sort_names-IsSorted [] = tt
sort_names-IsSorted (x ∷ l) = insert_name-IsSorted x (sort_names l) (sort_names-IsSorted l)

insert_name-perm : (a : Bytes) (l : List Bytes) → Perm (insert_name a l) (a ∷ l)
unfolding insert_name
insert_name-perm a [] = Perm.refl (a ∷ [])
insert_name-perm a (q ∷ l) = elim (Bool-cases (less q a)) [
  | inl e ↦ rw e (Perm.trans (Perm.cons q (insert_name-perm a l)) (Perm.swap a q l))
  | inr e ↦ rw e (Perm.refl _)
]

sort_names-perm : (l : List Bytes) → Perm (sort_names l) l
unfolding sort_names
sort_names-perm [] = Perm.refl []
sort_names-perm (x ∷ l) =
    Perm.trans (insert_name-perm x (sort_names l)) (Perm.cons x (sort_names-perm l))

abbrev pub names : List Policy → List Bytes
names = map (λ p. p.name)

names-map :
    (f : Bytes → Bytes) (l : List Bytes)
    → names (map (λ n. record { name = n; content = f n }) l) ≡ l
names-map f [] = refl
names-map f (x ∷ l) = ap (λ r. x ∷ r) (names-map f l)

-- The policies of a map are sorted by name, their names are its keys, each as often, and each
-- carries what the map holds at its name.
pub policies_from_map-IsSorted :
    (m : StringMap)
    → IsSorted (names (policies_from_map m))
      × Perm (names (policies_from_map m)) m.keys
      × All (λ p. p.content ≡ m.get p.name) (policies_from_map m)
unfolding policies_from_map
policies_from_map-IsSorted m =
    rw (names-map m.get (sort_names m.keys))
      (sort_names-IsSorted m.keys, sort_names-perm m.keys, contents (sort_names m.keys))
  where
    contents :
        (l : List Bytes)
        → All
            (λ (p : Policy). p.content ≡ m.get p.name)
            (map (λ n. record { name = n; content = m.get n }) l)
    contents [] = tt
    contents (x ∷ l) = (refl, contents l)
