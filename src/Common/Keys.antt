-- ===== src/Common/Keys.antt =====
-- The keys of a sequence in the order in which they are first seen.
use mathlib.Core.Path.{◌≡◌, refl}
use mathlib.Core.Bool.{true, false, ◌||◌}
use mathlib.Core.Logic.{inl, inr}
use mathlib.Core.List.{List, [], ◌∷◌, ◌++◌, append_assoc, append-nil}
use native.Mathlib.Omega.{arith}
use gubal.Common.Tests.{Bool-cases}
use gubal.Common.Text.{Bytes, ==_comm, member, Distinct}

unfoldable pub first_seen : List Bytes → List Bytes → List Bytes
first_seen seen [] = []
first_seen seen (x ∷ xs) = elim (member x seen) [
  | true ↦ first_seen seen xs
  | false ↦ x ∷ first_seen (seen ++ x ∷ []) xs
]

pub first_seen_old :
    (seen : List Bytes) (x : Bytes) (xs : List Bytes)
    → member x seen ≡ true
    → first_seen seen (x ∷ xs) ≡ first_seen seen xs
unfolding first_seen
first_seen_old seen x xs h = ground arith

pub first_seen_new :
    (seen : List Bytes) (x : Bytes) (xs : List Bytes)
    → member x seen ≡ false
    → first_seen seen (x ∷ xs) ≡ x ∷ first_seen (seen ++ x ∷ []) xs
unfolding first_seen
first_seen_new seen x xs h = ground arith

pub member-append :
    (t : Bytes) (xs ys : List Bytes) → member t (xs ++ ys) ≡ (member t xs || member t ys)
member-append t [] ys = refl
member-append t (x ∷ xs) ys = ground (arith, member-append t xs ys)

pub Distinct-append :
    (ns : List Bytes) (n : Bytes) → Distinct ns → member n ns ≡ false → Distinct (ns ++ n ∷ [])
Distinct-append [] n d h = (refl, tt)
Distinct-append (x ∷ ns) n (f, d) h = (
  rw (member-append x ns (n ∷ [])) (ground (arith, ==_comm n x)),
  Distinct-append ns n d (ground arith),
)

-- Behind keys that differ, the keys first seen differ too, among one another and from those.
pub first_seen-Distinct :
    (seen xs : List Bytes) → Distinct seen → Distinct (seen ++ first_seen seen xs)
first_seen-Distinct seen [] d = unfold first_seen in rw append-nil d
first_seen-Distinct seen (x ∷ xs) d = elim (Bool-cases (member x seen)) [
  | inl h ↦ rw (first_seen_old seen x xs h) (first_seen-Distinct seen xs d)
  | inr h ↦
      rw (first_seen_new seen x xs h, ← append_assoc seen (x ∷ []) (first_seen (seen ++ x ∷ []) xs))
        (first_seen-Distinct (seen ++ x ∷ []) xs (Distinct-append seen x d h))
]
