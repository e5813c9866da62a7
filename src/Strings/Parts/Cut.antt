-- ===== src/Strings/Parts/Cut.antt =====
-- What strings.Cut gives.
use gubal.Common.{
  ℕ, [], ◌∷◌, ◌++◌, some, ◌≡◌, ◌≢◌, refl, ap, arith, Bytes, nat_eq, nat_eq_iff, Lacks, Bool-cases,
  Option-cases, inl, inr,
}
use gubal.Strings.Parts.{cut}

-- The text is what stands before the separator, the separator and what stands after it, and it is the
-- first one.
pub cut_sound :
    (sep : ℕ) (s : Bytes) {a b : Bytes} → cut sep s ≡ some (a, b) → (s ≡ a ++ sep ∷ b) × Lacks sep a
unfolding cut
cut_sound sep [] e = absurd (cc e)
cut_sound sep (c ∷ s) {a} {b} e = elim (Bool-cases (nat_eq c sep)) [
  | inl q ↦
      let same : c ≡ sep = (nat_eq_iff c sep).0 q in
      let e' = rw (cut, q) at e in
      let ea : [] ≡ a = cc e' in let eb : s ≡ b = cc e' in rw (← ea, ← eb, same) (refl, tt)
  | inr q ↦
      let e' = rw (cut, q) at e in
      elim (Option-cases (cut sep s)) [
        | inl n ↦ absurd (let e'' = rw n at e' in cc e'')
        | inr ((a', b'), n) ↦
            let (split, lacks) = cut_sound sep s n in
            let e'' = rw n at e' in
            let differ : c ≢ sep = ground arith in
            let ea : c ∷ a' ≡ a = cc e'' in
            let eb : b' ≡ b = cc e'' in rw (← ea, ← eb) (ap (λ r. c ∷ r) split, (differ, lacks))
      ]
]
