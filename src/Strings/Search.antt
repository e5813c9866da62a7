-- ===== src/Strings/Search.antt =====
-- strings.HasPrefix, HasSuffix, TrimPrefix, TrimSuffix, Index, Contains, LastIndex, ReplaceAll.

use mathlib.Core.List.{reverse-append, reverse-reverse}
pub mod Last
use gubal.Common.{
  ap, sym, ◌∙◌, length-append, reverse, ℕ, zero, suc, ◌-◌, Bool, true, false, ◌&&◌, [], ◌∷◌, ◌++◌,
  Option, none, some, ◌≡◌, refl, arith, Bytes, bytes, nat_eq, nat_eq_iff, if◌then◌else◌, length,
  take, drop,
}

unfoldable pub has_prefix : Bytes → Bytes → Bool
has_prefix s [] = true
has_prefix [] (p ∷ ps) = false
has_prefix (c ∷ s) (p ∷ ps) = nat_eq c p && has_prefix s ps

unfoldable pub has_suffix : Bytes → Bytes → Bool
unfolding has_prefix
has_suffix s suffix = has_prefix (reverse s) (reverse suffix)

unfoldable pub trim_prefix : Bytes → Bytes → Bytes
unfolding has_prefix
trim_prefix s prefix = if has_prefix s prefix then drop (length prefix) s else s

unfoldable pub trim_suffix : Bytes → Bytes → Bytes
unfolding has_suffix
trim_suffix s suffix = if has_suffix s suffix then take (length s - length suffix) s else s

-- where `sub` stands first; `none` is Go's -1
unfoldable pub index : Bytes → Bytes → Option ℕ
unfolding has_prefix
index [] sub = if has_prefix [] sub then some 0 else none
index (c ∷ s) sub =
    let rest = index s sub in
    if has_prefix (c ∷ s) sub then some 0 else elim rest [ none ↦ none | some i ↦ some (suc i) ]

unfoldable pub contains : Bytes → Bytes → Bool
unfolding index
contains s sub = elim (index s sub) [ none ↦ false | some i ↦ true ]

-- where a byte stands last
unfoldable pub last_index : Bytes → ℕ → Option ℕ
last_index [] b = none
last_index (c ∷ s) b = elim (last_index s b) [
  | some i ↦ some (suc i)
  | none ↦ if nat_eq c b then some 0 else none
]

-- strings.ReplaceAll for an `old` that is not empty; the number is of bytes of a match still to skip
replace_from : Bytes → Bytes → ℕ → Bytes → Bytes
replace_from old new k [] = []
replace_from old new (suc k) (c ∷ s) = replace_from old new k s
replace_from old new zero (c ∷ s) = elim (has_prefix (c ∷ s) old) [
  | true ↦ new ++ replace_from old new (length old - 1) s
  | false ↦ c ∷ replace_from old new zero s
]

unfoldable pub replace_all : Bytes → Bytes → Bytes → Bytes
unfolding replace_from has_prefix
replace_all s old new = replace_from old new 0 s

replaces : replace_all (bytes "a:1 b a:1a:1") (bytes "a:1") (bytes "xyz") ≡ bytes "xyz b xyzxyz"
unfolding replace_all
replaces = refl

yaml_suffix : trim_suffix (bytes "default.yaml") (bytes ".yaml") ≡ bytes "default"
unfolding trim_suffix
yaml_suffix = refl

pub has_prefix-append : (p s : Bytes) → has_prefix (p ++ s) p ≡ true
unfolding has_prefix
has_prefix-append [] s = refl
has_prefix-append (c ∷ p) s = ground (arith, nat_eq_iff c c, has_prefix-append p s)

-- A text that begins with `p` is `p` and a rest.
pub has_prefix_sound : (s p : Bytes) → has_prefix s p ≡ true → s ≡ p ++ drop (length p) s
unfolding has_prefix
has_prefix_sound s [] h = refl
has_prefix_sound [] (c ∷ p) h = ground arith
has_prefix_sound (d ∷ s) (c ∷ p) h = ground (arith, nat_eq_iff d c, has_prefix_sound s p)

pub drop-length-append : (p s : Bytes) → drop (length p) (p ++ s) ≡ s
drop-length-append [] s = refl
drop-length-append (c ∷ p) s = drop-length-append p s

take-length-append :
    (s suffix : Bytes) → take (length (s ++ suffix) - length suffix) (s ++ suffix) ≡ s
take-length-append s suffix =
    let k : length (s ++ suffix) - length suffix ≡ length s =
      omega (arith, length-append {0} s suffix) in
    rw k (front s)
  where
    front : (t : Bytes) → take (length t) (t ++ suffix) ≡ t
    front [] = refl
    front (c ∷ t) = ap (λ r. c ∷ r) (front t)

has_suffix_sound : (s suffix : Bytes) → has_suffix s suffix ≡ true → (t : Bytes) × (s ≡ t ++ suffix)
unfolding has_suffix
has_suffix_sound s suffix h =
    let rest = drop (length (reverse suffix)) (reverse s) in
    (
      reverse rest,
      sym (reverse-reverse s)
          ∙ ap (λ (r : Bytes). reverse r) (has_prefix_sound (reverse s) (reverse suffix) h)
          ∙ reverse-append (reverse suffix) rest
          ∙ ap (λ r. reverse rest ++ r) (reverse-reverse suffix),
    )

-- TrimSuffix takes the suffix off, if it is there.
pub trim_suffix-append :
    (s suffix : Bytes) → has_suffix s suffix ≡ true → s ≡ trim_suffix s suffix ++ suffix
unfolding trim_suffix
trim_suffix-append s suffix h =
    let (t, e) = has_suffix_sound s suffix h in
    rw h (rw e (ap (λ r. r ++ suffix) (sym (take-length-append t suffix))))

index-cons-none :
    (c : ℕ) (s sub : Bytes)
    → index (c ∷ s) sub ≡ none
    → (has_prefix (c ∷ s) sub ≡ false) × (index s sub ≡ none)
unfolding index
index-cons-none c s sub h = ground arith

replace_from-of_none : (old new t : Bytes) → index t old ≡ none → replace_from old new 0 t ≡ t
unfolding replace_from
replace_from-of_none old new [] e = refl
replace_from-of_none old new (c ∷ t) e =
    ground (arith, replace_from-of_none old new t, index-cons-none c t old)

contains-false : (s sub : Bytes) → contains s sub ≡ false → index s sub ≡ none
unfolding contains
contains-false s sub h = ground arith

-- A text without the old one is left as it is.
pub replace_all-of_not_contains :
    (s old new : Bytes) → contains s old ≡ false → replace_all s old new ≡ s
unfolding replace_all
replace_all-of_not_contains s old new h = replace_from-of_none old new s (contains-false s old h)
