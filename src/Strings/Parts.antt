-- ===== src/Strings/Parts.antt =====
-- strings.Split and strings.Cut at one byte, and strings.Join.
pub mod Cut
use gubal.Common.{
  ap, ℕ, List, [], ◌∷◌, ◌++◌, Option, none, some, ◌≡◌, ◌≢◌, refl, arith, Bytes, nat_eq, nat_eq_iff,
  if◌then◌else◌, All, Lacks, Bool-cases, inl, inr,
}

-- a byte in front of the first part
push : ℕ → List Bytes → List Bytes
push c [] = (c ∷ []) ∷ []
push c (p ∷ ps) = (c ∷ p) ∷ ps

unfoldable pub split : ℕ → Bytes → List Bytes
unfolding push
split sep [] = [] ∷ []
split sep (c ∷ s) = let rest = split sep s in if nat_eq c sep then [] ∷ rest else push c rest

unfoldable pub join : Bytes → List Bytes → Bytes
join sep [] = []
join sep (p ∷ []) = p
join sep (p ∷ q ∷ ps) = p ++ (sep ++ join sep (q ∷ ps))

-- strings.Cut: what stands before and after the first separator
unfoldable pub cut : ℕ → Bytes → Option (Bytes × Bytes)
cut sep [] = none
cut sep (c ∷ s) =
    let rest = cut sep s in
    if nat_eq c sep then some ([], s) else elim rest [ none ↦ none | some (a, b) ↦ some (c ∷ a, b) ]

pub split-ne-nil : (sep : ℕ) (s : Bytes) → split sep s ≢ []
unfolding split
split-ne-nil sep [] = ground arith
split-ne-nil sep (c ∷ s) = ground (arith, split-ne-nil sep s)

push-Lacks :
    (sep c : ℕ) (ps : List Bytes) → c ≢ sep → All (Lacks sep) ps → All (Lacks sep) (push c ps)
unfolding push
push-Lacks sep c [] h all = ((h, tt), tt)
push-Lacks sep c (p ∷ ps) h (lacks, all) = ((h, lacks), all)

-- No part of a split holds the separator.
pub split-Lacks : (sep : ℕ) (s : Bytes) → All (Lacks sep) (split sep s)
unfolding split
split-Lacks sep [] = (tt, tt)
split-Lacks sep (c ∷ s) = elim (Bool-cases (nat_eq c sep)) [
  | inl e ↦ rw e (tt, split-Lacks sep s)
  | inr e ↦ rw e (push-Lacks sep c (split sep s) (ground arith) (split-Lacks sep s))
]

join-push :
    (sep : Bytes) (c : ℕ) (ps : List Bytes) → ps ≢ [] → join sep (push c ps) ≡ c ∷ join sep ps
unfolding push join
join-push sep c [] h = absurd (h refl)
join-push sep c (p ∷ []) h = refl
join-push sep c (p ∷ q ∷ ps) h = refl

join-cons-nil :
    (sep : ℕ) (ps : List Bytes) → ps ≢ [] → join (sep ∷ []) ([] ∷ ps) ≡ sep ∷ join (sep ∷ []) ps
unfolding join
join-cons-nil sep [] h = absurd (h refl)
join-cons-nil sep (p ∷ ps) h = refl

-- Joining the parts of a split gives the text back.
pub join-split : (sep : ℕ) (s : Bytes) → join (sep ∷ []) (split sep s) ≡ s
unfolding split
join-split sep [] = unfold join in refl
join-split sep (c ∷ s) = elim (Bool-cases (nat_eq c sep)) [
  | inl e ↦
      rw (e, join-cons-nil sep _ (split-ne-nil sep s), join-split sep s)
        (ground (arith, nat_eq_iff c sep))
  | inr e ↦ rw (e, join-push _ c _ (split-ne-nil sep s), join-split sep s)
]

-- A text without the separator is one part.
pub split-of_Lacks : (sep : ℕ) (s : Bytes) → Lacks sep s → split sep s ≡ s ∷ []
unfolding split push
split-of_Lacks sep [] h = refl
split-of_Lacks sep (c ∷ s) (hc, h) = rw (split-of_Lacks sep s h) (ground (arith, nat_eq_iff c sep))

pub split-append :
    (sep : ℕ) (p s : Bytes) → Lacks sep p → split sep (p ++ sep ∷ s) ≡ p ∷ split sep s
unfolding split push
split-append sep [] s h = ground (arith, nat_eq_iff sep sep)
split-append sep (c ∷ p) s (hc, h) = rw (split-append sep p s h) (ground (arith, nat_eq_iff c sep))

-- Splitting a join gives the parts back, if there is a part and none holds the separator.
pub split-join :
    (sep : ℕ) (ps : List Bytes) → ps ≢ [] → All (Lacks sep) ps → split sep (join (sep ∷ []) ps) ≡ ps
unfolding join
split-join sep [] h _ = absurd (h refl)
split-join sep (p ∷ []) h (l, _) = split-of_Lacks sep p l
split-join sep (p ∷ q ∷ ps) h (l, ls) =
    rw (split-append sep p _ l) (ap (λ r. p ∷ r) (split-join sep (q ∷ ps) (ground arith) ls))
