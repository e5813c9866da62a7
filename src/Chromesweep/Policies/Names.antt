-- ===== src/Chromesweep/Policies/Names.antt =====
-- The pattern of policy names, and the length that Kubernetes allows.
use gubal.Common.{
  ℕ, ◌+◌, ◌≤◌, Bool, true, [], ◌∷◌, ◌++◌, ◌≡◌, ◌↔◌, refl, arith, Bytes, ok, length, all,
}
use gubal.Chromesweep.Policies.{
  alnum, label_byte, label_rest, policy_name_matches, validate_policy_name, config_map_name,
}

-- regular expressions, as package regexp documents them
pub data Regex : Type 0 where
  class : (ℕ → Bool) → Regex
  seq : Regex → Regex → Regex
  star : Regex → Regex
  opt : Regex → Regex

-- the texts that an expression matches from the first byte to the last
pub data Matches : Regex → Bytes → Type 0 where
  match_class : {p : ℕ → Bool} (c : ℕ) → p c ≡ true → Matches (class p) (c ∷ [])
  match_seq :
      {r q : Regex} {s t u : Bytes} → Matches r s → Matches q t → u ≡ s ++ t → Matches (seq r q) u
  star_done : {r : Regex} → Matches (star r) []
  star_more :
      {r : Regex} {s t u : Bytes}
      → Matches r s
      → Matches (star r) t
      → u ≡ s ++ t
      → Matches (star r) u
  opt_none : {r : Regex} → Matches (opt r) []
  opt_some : {r : Regex} {s : Bytes} → Matches r s → Matches (opt r) s

-- ^[a-z0-9]([a-z0-9-]*[a-z0-9])?$
abbrev pub policy_name_re : Regex
policy_name_re = seq (class alnum) (opt (seq (star (class label_byte)) (class alnum)))

abbrev rest_re : Regex
rest_re = seq (star (class label_byte)) (class alnum)

cons_rest : (c : ℕ) {s : Bytes} → label_byte c ≡ true → Matches rest_re s → Matches rest_re (c ∷ s)
cons_rest c h (match_seq {s = a} {t = b} m n e) =
    match_seq (star_more (match_class c h) m refl) n (rw e)

rest_complete : (c : ℕ) (s : Bytes) → label_rest (c ∷ s) ≡ true → Matches rest_re (c ∷ s)
unfolding label_rest
rest_complete c [] h = match_seq star_done (match_class c h) refl
rest_complete c (d ∷ s) h = cons_rest c (ground arith) (rest_complete d s (ground arith))

star-all : {p : ℕ → Bool} {s : Bytes} → Matches (star (class p)) s → all p s ≡ true
star-all star_done = refl
star-all {p} (star_more {t = t} (match_class c h) m e) = rw e (rw h (star-all m))

label_rest-append :
    (s : Bytes) (c : ℕ) → all label_byte s ≡ true → alnum c ≡ true → label_rest (s ++ c ∷ []) ≡ true
unfolding label_rest
label_rest-append [] c h k = k
label_rest-append (a ∷ []) c h k = ground arith
label_rest-append (a ∷ b ∷ s) c h k = ground (arith, label_rest-append (b ∷ s) c)

rest_sound : {s : Bytes} → Matches rest_re s → label_rest s ≡ true
rest_sound (match_seq {s = a} m (match_class c h) e) = rw e (label_rest-append a c (star-all m) h)

-- The name is accepted exactly when the regular expression of the source matches it.
pub policy_name_matches_iff :
    (s : Bytes) → (policy_name_matches s ≡ true) ↔ Matches policy_name_re s
unfolding policy_name_matches
policy_name_matches_iff s = (complete s, sound)
  where
    rest : (s : Bytes) → label_rest s ≡ true → Matches (opt rest_re) s
    rest [] h = opt_none
    rest (c ∷ s) h = opt_some (rest_complete c s h)

    complete : (s : Bytes) → policy_name_matches s ≡ true → Matches policy_name_re s
    complete [] h = cc
    complete (c ∷ s) h = match_seq (match_class c (ground arith)) (rest s (ground arith)) refl

    sound : {s : Bytes} → Matches policy_name_re s → policy_name_matches s ≡ true
    sound (match_seq (match_class c h) opt_none e) = rw e (rw h (unfold label_rest in refl))
    sound (match_seq (match_class c h) (opt_some m) e) = rw e (rw h (rest_sound m))

validate-iff-matches :
    (s : Bytes)
    → (validate_policy_name s ≡ ok tt) ↔ ((policy_name_matches s ≡ true) × (length s ≤ 49))
unfolding validate_policy_name
validate-iff-matches s = ground arith

length-config_map_name : (s : Bytes) → length (config_map_name s) ≡ 14 + length s
unfolding config_map_name
length-config_map_name s = omega arith

-- A name passes the validation exactly when the regular expression matches it and it has at most
-- 49 bytes, and then the ConfigMap's name has at most the 63 bytes that Kubernetes allows.
pub validate_policy_name_iff :
    (s : Bytes)
    → ((validate_policy_name s ≡ ok tt) ↔ (Matches policy_name_re s × (length s ≤ 49)))
      × (validate_policy_name s ≡ ok tt → length (config_map_name s) ≤ 63)
validate_policy_name_iff s =
    let (fits, accepts) = validate-iff-matches s in
    let (re, matches) = policy_name_matches_iff s in
    (
      (λ h. (re (fits h).0, (fits h).1), λ (m, l). accepts (matches m, l)),
      λ h. omega (arith, (fits h).1, length-config_map_name s),
    )
