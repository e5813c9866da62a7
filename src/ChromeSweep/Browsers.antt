-- ===== src/ChromeSweep/Browsers.antt =====
-- Which browsers and versions the flags of chrome-sweep give.
use gubal.Common.{
  List, [], ◌∷◌, ◌++◌, ◌≡◌, ◌≢◌, ◌⊎◌, inl, inr, refl, ap, sym, ◌∙◌, append-nil, Bytes, ◌==◌, ==_iff,
  Result, ok, err, Bool-cases,
}
use gubal.Strings.{split, trim_space}
use gubal.Chromesweep.Versions.{VersionsError, parse_versions}
use gubal.Chromesweep.Config.{Browser, chrome_browser, firefox_browser}
use gubal.ChromeSweep.{FlagsError, browsers_loop, some_browser, browsers_from_flags}

-- a browser with the versions of a list of them; none where the list has no versions
abbrev pub chosen : Browser → Result VersionsError (List Bytes) → List Browser
chosen browser (ok vs) = (record browser { versions = vs }) ∷ []
chosen browser (err e) = []

-- a list of versions that is blank or has versions and none twice
abbrev pub Usable : Bytes → Type 0
Usable csv = (trim_space csv ≡ []) ⊎ ((vs : List Bytes) × (parse_versions (split b',' csv) ≡ ok vs))

parsed :
    (csv : Bytes)
    → ((e : VersionsError) × (parse_versions (split b',' csv) ≡ err e))
      ⊎ ((vs : List Bytes) × (parse_versions (split b',' csv) ≡ ok vs))
parsed csv = go (parse_versions (split b',' csv)) refl
  where
    go :
        (r : Result VersionsError (List Bytes))
        → parse_versions (split b',' csv) ≡ r
        → ((e : VersionsError) × (parse_versions (split b',' csv) ≡ err e))
          ⊎ ((vs : List Bytes) × (parse_versions (split b',' csv) ≡ ok vs))
    go (err e) q = inl (e, q)
    go (ok vs) q = inr (vs, q)

-- one round of the loop that does not end it
loop_ok :
    (out : List Browser) (csv : Bytes) (browser : Browser) (specs : List (Bytes × Browser))
    {bs : List Browser}
    → browsers_loop out ((csv, browser) ∷ specs) ≡ ok bs
    → Usable csv
      × (browsers_loop (out ++ chosen browser (parse_versions (split b',' csv))) specs ≡ ok bs)
unfolding browsers_loop
loop_ok out csv browser specs h = elim (parsed csv) [
  | inr (vs, q) ↦ let h' = rw (browsers_loop, q) at h in (inr (vs, q), rw q h')
  | inl (e, q) ↦
      let h' = rw (browsers_loop, q) at h in
      elim (Bool-cases (trim_space csv == [])) [
        | inl b ↦
            let h'' = rw b at h' in
            (inl ((==_iff (trim_space csv) []).0 b), rw (q, append-nil out) h'')
        | inr b ↦ absurd (let h'' = rw b at h' in cc h'')
      ]
]

some_browser_ok :
    (r : Result FlagsError (List Browser)) {bs : List Browser}
    → some_browser r ≡ ok bs
    → (r ≡ ok bs) × (bs ≢ [])
unfolding some_browser
some_browser_ok (err e) h = absurd (cc h)
some_browser_ok (ok []) h = absurd (cc h)
some_browser_ok (ok (b ∷ bs)) h = (h, λ empty. let q = h ∙ ap ok empty in cc q)

loop_end : (out : List Browser) {bs : List Browser} → browsers_loop out [] ≡ ok bs → bs ≡ out
unfolding browsers_loop
loop_end out {bs} e = let same : out ≡ bs = cc e in sym same

-- Where the flags give browsers, each list of versions is blank or has versions and none twice, there
-- is a browser, and the browsers are Chrome and Firefox with the versions of their lists, less the one
-- whose list is blank.
pub browsers_from_flags_ok :
    (chrome_csv firefox_csv : Bytes) {bs : List Browser}
    → browsers_from_flags chrome_csv firefox_csv ≡ ok bs
    → Usable chrome_csv
      × Usable firefox_csv
      × (bs ≢ [])
      × (bs
          ≡ chosen chrome_browser (parse_versions (split b',' chrome_csv))
            ++ chosen firefox_browser (parse_versions (split b',' firefox_csv)))
unfolding browsers_from_flags
browsers_from_flags_ok chrome_csv firefox_csv h =
    let (h1, ne) = some_browser_ok _ h in
    let (chrome, h2) =
      loop_ok [] chrome_csv chrome_browser ((firefox_csv, firefox_browser) ∷ []) h1 in
    let (firefox, h3) = loop_ok _ firefox_csv firefox_browser [] h2 in
    (chrome, firefox, ne, loop_end _ h3)
