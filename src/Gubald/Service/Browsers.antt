-- ===== src/Gubald/Service/Browsers.antt =====
-- The browsers that a request asks for.
use gubal.Common.{
  false, List, [], ◌∷◌, ◌++◌, append-nil, ◌≡◌, ◌≢◌, ◌↔◌, refl, sym, ◌∙◌, arith, Bytes, ◌==◌, ==_iff,
  member, Distinct, All, All-map, map, Result, ok, err, Bool-cases, inl, inr,
}
use gubal.Common.Int.{ℤ}
use gubal.Strings.{itoa, trim_space}
use gubal.Strings.Numbers.Decimal.{itoa_injective, itoa-ne, itoa-IsNumeric}
use gubal.Strings.Trim.Plain.{trim_space-plain}
use gubal.Chromesweep.Versions.{VersionsError}
use gubal.Chromesweep.Versions.Accepts.{tags, parse_versions_ok}
use gubal.Chromesweep.Config.{Browser, chrome_browser, firefox_browser}
use gubal.Gubald.Service.{
  SmokeTestRequest, BrowsersError, bad_versions, parse_ints, with_versions, some_browsers,
  browsers_for,
}

trim_space-itoa : (v : ℤ) → trim_space (itoa v) ≡ itoa v
trim_space-itoa v =
    trim_space-plain (itoa v)
      (All-map (itoa v) (λ c (lo, hi, ne). (omega arith, omega arith)) (itoa-IsNumeric v))

tags-itoa : (vs : List ℤ) → tags (map itoa vs) ≡ map itoa vs
unfolding tags
tags-itoa [] = refl
tags-itoa (v ∷ vs) =
    let full : (itoa v == []) ≡ false = elim (Bool-cases (itoa v == [])) [
      | inl e ↦ absurd (itoa-ne v ((==_iff _ _).0 e))
      | inr e ↦ e
    ] in
    rw (trim_space-itoa v, full, tags-itoa vs) refl

-- no number twice
abbrev pub DistinctInts : List ℤ → Type 0
DistinctInts [] = Unit
DistinctInts (v ∷ vs) = All (λ w. w ≢ v) vs × DistinctInts vs

member-itoa : (v : ℤ) (vs : List ℤ) → (member (itoa v) (map itoa vs) ≡ false) ↔ All (λ w. w ≢ v) vs
member-itoa v [] = (λ h. tt, λ h. refl)
member-itoa v (w ∷ vs) = (
  λ h. elim (Bool-cases (itoa w == itoa v)) [
    | inl e ↦ absurd (let h' = rw e at h in cc h')
    | inr e ↦ (
      (λ q. let e' = rw (q, (==_iff (itoa v) (itoa v)).1 refl) at e in cc e'),
      (member-itoa v vs).0 (rw e at h),
    )
  ],
  λ (ne, h). elim (Bool-cases (itoa w == itoa v)) [
    | inl e ↦ absurd (ne (itoa_injective w v ((==_iff _ _).0 e)))
    | inr e ↦ rw e ((member-itoa v vs).1 h)
  ],
)

Distinct-itoa : (vs : List ℤ) → Distinct (map itoa vs) ↔ DistinctInts vs
Distinct-itoa [] = (λ h. tt, λ h. tt)
Distinct-itoa (v ∷ vs) = (
  λ (m, d). ((member-itoa v vs).0 m, (Distinct-itoa vs).0 d),
  λ (m, d). ((member-itoa v vs).1 m, (Distinct-itoa vs).1 d),
)

map-ne : (vs : List ℤ) → vs ≢ [] → map itoa vs ≢ []
map-ne [] h e = h refl
map-ne (v ∷ vs) h e = cc e

parse_ints_sound :
    (vs : List ℤ) (ts : List Bytes) → parse_ints vs ≡ ok ts → (ts ≡ map itoa vs) × DistinctInts vs
unfolding parse_ints
parse_ints_sound vs ts h =
    let (e, d, ne) = (parse_versions_ok (map itoa vs) ts).0 h in
    let same : ts ≡ map itoa vs = e ∙ tags-itoa vs in (same, (Distinct-itoa vs).0 (rw same at d))

parse_ints_complete : (vs : List ℤ) → DistinctInts vs → vs ≢ [] → parse_ints vs ≡ ok (map itoa vs)
unfolding parse_ints
parse_ints_complete vs d ne =
    (parse_versions_ok (map itoa vs) (map itoa vs)).1
      (sym (tags-itoa vs), (Distinct-itoa vs).1 d, map-ne vs ne)

-- the preset of a browser with the versions, left out where there are none
unfoldable pub versioned : Browser → List ℤ → List Browser
versioned b [] = []
versioned b (v ∷ vs) = (record b { versions = map itoa (v ∷ vs) }) ∷ []

unfoldable pub asked : SmokeTestRequest → List Browser
asked req =
    versioned chrome_browser req.chrome_versions ++ versioned firefox_browser req.firefox_versions

module _ (b : Browser) (browsers : List Browser)
    (next : List Browser → Result BrowsersError (List Browser)) where
  with_versions_sound :
      (vs : List ℤ) (out : List Browser)
      → with_versions b vs browsers next ≡ ok out
      → DistinctInts vs × (next (browsers ++ versioned b vs) ≡ ok out)
  unfolding with_versions versioned
  with_versions_sound [] out h = (tt, rw append-nil h)
  with_versions_sound (v ∷ vs) out h = go (parse_ints (v ∷ vs)) refl h
    where
      go :
          (r : Result VersionsError (List Bytes))
          → parse_ints (v ∷ vs) ≡ r
          → (let x : Result BrowsersError (List Browser) = elim r [
            | err e ↦ err (bad_versions e)
            | ok tags ↦ next (browsers ++ (record b { versions = tags }) ∷ [])
          ] in
              x)
            ≡ ok out
          → DistinctInts (v ∷ vs) × (next (browsers ++ versioned b (v ∷ vs)) ≡ ok out)
      go (err e) q k = absurd (cc k)
      go (ok ts) q k = let (same, d) = parse_ints_sound (v ∷ vs) ts q in (d, rw same at k)

  with_versions_complete :
      (vs : List ℤ)
      → DistinctInts vs
      → with_versions b vs browsers next ≡ next (browsers ++ versioned b vs)
  unfolding with_versions versioned
  with_versions_complete [] d = rw append-nil refl
  with_versions_complete (v ∷ vs) d =
      rw (with_versions, parse_ints_complete (v ∷ vs) d (λ e. cc e)) refl

some_browsers_ok : (bs out : List Browser) → (some_browsers bs ≡ ok out) ↔ ((out ≡ bs) × (out ≢ []))
unfolding some_browsers
some_browsers_ok [] out = (λ h. absurd (cc h), λ (e, ne). absurd (ne e))
some_browsers_ok (b ∷ bs) out = (
  λ h. let same : b ∷ bs ≡ out = cc h in (sym same, λ e. let q : b ∷ bs ≡ [] = same ∙ e in cc q),
  λ (e, ne). rw e refl,
)

-- A request is given browsers exactly when neither of its lists names a version twice and one of
-- them names one; they are the presets of the lists that do, with its versions in decimal.
pub browsers_for_ok :
    (req : SmokeTestRequest) (bs : List Browser)
    → (browsers_for req ≡ ok bs) ↔ (
        (bs ≡ asked req)
        × (bs ≢ [])
        × DistinctInts req.chrome_versions
        × DistinctInts req.firefox_versions)
unfolding browsers_for asked
browsers_for_ok req bs = (
  λ h.
      let (c, h') = with_versions_sound chrome_browser [] _ req.chrome_versions bs h in
      let (f, h'') =
        with_versions_sound firefox_browser _ some_browsers req.firefox_versions bs h' in
      let (e, ne) = (some_browsers_ok _ bs).0 h'' in (e, ne, c, f),
  λ (e, ne, c, f).
      with_versions_complete chrome_browser [] _ req.chrome_versions c
      ∙ with_versions_complete firefox_browser _ some_browsers req.firefox_versions f
      ∙ (some_browsers_ok _ bs).1 (e, ne),
)
