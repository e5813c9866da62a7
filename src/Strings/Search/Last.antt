-- ===== src/Strings/Search/Last.antt =====
-- Where a byte stands last, and prefixes that are taken off.
use gubal.Common.{
  ℕ, [], ◌∷◌, ◌++◌, none, some, ◌≡◌, refl, ap, arith, Bytes, nat_eq_iff, Lacks, length, take,
}
use gubal.Strings.Search.{trim_prefix, last_index, has_prefix-append, drop-length-append}

pub last_index-of_Lacks : (b : ℕ) (s : Bytes) → Lacks b s → last_index s b ≡ none
unfolding last_index
last_index-of_Lacks b [] h = refl
last_index-of_Lacks b (c ∷ s) (ne, h) =
    rw (last_index, last_index-of_Lacks b s h) (ground (arith, nat_eq_iff c b))

-- A byte that stands before a rest without it is the last.
pub last_index-append :
    (b : ℕ) (s t : Bytes) → Lacks b t → last_index (s ++ b ∷ t) b ≡ some (length s)
unfolding last_index
last_index-append b [] t h =
    rw (last_index, last_index-of_Lacks b t h) (ground (arith, nat_eq_iff b b))
last_index-append b (c ∷ s) t h = rw (last_index, last_index-append b s t h) refl

pub trim_prefix-append : (p s : Bytes) → trim_prefix (p ++ s) p ≡ s
unfolding trim_prefix
trim_prefix-append p s = rw (has_prefix-append p s) (drop-length-append p s)

pub take-length : (s t : Bytes) → take (length s) (s ++ t) ≡ s
take-length [] t = refl
take-length (c ∷ s) t = ap (λ r. c ∷ r) (take-length s t)
