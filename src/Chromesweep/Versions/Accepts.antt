-- ===== src/Chromesweep/Versions/Accepts.antt =====
-- What ParseVersions accepts and returns.
use mathlib.Core.List.{cons-ne-nil}
use gubal.Common.{
  false, Option, none, some, All, List, [], ◌∷◌, ◌++◌, ◌≡◌, ◌≢◌, refl, arith, Bytes, ◌==◌, ==_comm,
  member, Distinct, Result, ok, err, if◌then◌else◌, append_assoc, append-nil, Bool-cases, inl, inr,
  ◌↔◌,
}
use gubal.Strings.{trim_space}
use gubal.Chromesweep.Versions.{
  VersionsError, duplicate, none_given, finish, parse_loop, parse_versions,
}

-- the tags of the arguments: trimmed, and the empty ones left out
unfoldable pub tags : List Bytes → List Bytes
tags [] = []
tags (a ∷ args) = if trim_space a == [] then tags args else trim_space a ∷ tags args

-- the first tag that stands among those before it
first_repeat : List Bytes → List Bytes → Option Bytes
first_repeat seen [] = none
first_repeat seen (t ∷ ts) =
    let rest = first_repeat (t ∷ seen) ts in if member t seen then some t else rest

outcome : List Bytes → Option Bytes → Result VersionsError (List Bytes)
unfolding finish
outcome out none = finish out
outcome out (some t) = err (duplicate t)

parse_loop-outcome :
    (seen out args : List Bytes)
    → parse_loop seen out args ≡ outcome (out ++ tags args) (first_repeat seen (tags args))
unfolding parse_loop tags first_repeat outcome
parse_loop-outcome seen out [] = rw append-nil
parse_loop-outcome seen out (a ∷ args) = elim (Bool-cases (trim_space a == [])) [
  | inl e ↦ rw e (parse_loop-outcome seen out args)
  | inr e ↦ rw e (elim (Bool-cases (member (trim_space a) seen)) [
    | inl d ↦ rw d
    | inr d ↦
        rw (
          d,
          parse_loop-outcome (trim_space a ∷ seen) (out ++ trim_space a ∷ []) args,
          append_assoc,
        )
  ])
]

abbrev Apart : List Bytes → List Bytes → Type 0
Apart seen ts = All (λ t. member t seen ≡ false) ts

Apart-cons :
    (t : Bytes) (seen ts : List Bytes)
    → Apart (t ∷ seen) ts ↔ ((member t ts ≡ false) × Apart seen ts)
Apart-cons t seen [] = (λ h. (refl, tt), λ h. tt)
Apart-cons t seen (u ∷ ts) = ground (arith, ==_comm u t, Apart-cons t seen ts)

fresh : (seen ts : List Bytes) → (first_repeat seen ts ≡ none) ↔ (Distinct ts × Apart seen ts)
unfolding first_repeat
fresh seen [] = (λ h. (tt, tt), λ h. refl)
fresh seen (t ∷ ts) = ground (arith, fresh (t ∷ seen) ts, Apart-cons t seen ts)

Apart-nil : (ts : List Bytes) → Apart [] ts
Apart-nil [] = tt
Apart-nil (t ∷ ts) = (refl, Apart-nil ts)

first_repeat-Distinct : (ts : List Bytes) → (first_repeat [] ts ≡ none) ↔ Distinct ts
first_repeat-Distinct ts = (λ h. ((fresh [] ts).0 h).0, λ d. (fresh [] ts).1 (d, Apart-nil ts))

outcome_sound :
    (ts out : List Bytes) (r : Option Bytes)
    → first_repeat [] ts ≡ r
    → outcome ts r ≡ ok out
    → (out ≡ ts) × Distinct out × (out ≢ [])
unfolding outcome
outcome_sound [] out none e h = cc
outcome_sound (t ∷ ts) out none e h =
    let same : t ∷ ts ≡ out = cc in
    rw (← same) (refl, (first_repeat-Distinct (t ∷ ts)).0 e, cons-ne-nil t ts)
outcome_sound ts out (some t) e h = cc

outcome_complete :
    (ts : List Bytes) → Distinct ts → ts ≢ [] → outcome ts (first_repeat [] ts) ≡ ok ts
unfolding outcome
outcome_complete ts d h = rw ((first_repeat-Distinct ts).1 d) (finish_ok ts h)
  where
    finish_ok : (us : List Bytes) → us ≢ [] → finish us ≡ ok us
    finish_ok [] n = absurd (n refl)
    finish_ok (u ∷ us) n = refl

-- ParseVersions returns `out` exactly when `out` is the trimmed non-empty arguments in their order,
-- no two of them are the same, and there is at least one.
pub parse_versions_ok :
    (args out : List Bytes)
    → (parse_versions args ≡ ok out) ↔ ((out ≡ tags args) × Distinct out × (out ≢ []))
unfolding parse_versions
parse_versions_ok args out =
    rw (parse_loop-outcome [] [] args) (
      λ h. outcome_sound (tags args) out _ refl h,
      λ (e, d, n). rw (← e) (outcome_complete out d n),
    )

outcome_blank : (ts : List Bytes) (r : Option Bytes) → outcome ts r ≡ err none_given → ts ≡ []
unfolding outcome
outcome_blank [] r h = refl
outcome_blank (t ∷ ts) none h = cc
outcome_blank (t ∷ ts) (some u) h = cc

-- ParseVersions reports that no version is given exactly when every argument is blank.
pub parse_versions_none_given :
    (args : List Bytes) → (parse_versions args ≡ err none_given) ↔ (tags args ≡ [])
unfolding parse_versions
parse_versions_none_given args =
    rw (parse_loop-outcome [] [] args)
      (λ h. outcome_blank (tags args) _ h, λ e. rw e (unfold outcome first_repeat in refl))
