-- ===== src/ChromeBully/Frames.antt =====
-- The name of a frame, and what chromesweep reads from it.
use gubal.Common.{
  ℕ, suc, ◌+◌, true, [], ◌∷◌, ◌++◌, none, some, ◌≡◌, ◌≢◌, refl, ap, ◌∙◌, arith, Bytes, bytes, ltb,
  All, All-append, Lacks, length, take, drop, Bool-cases, inl, inr, length-append,
}
use gubal.Strings.{last_index, trim_prefix, base}
use gubal.Strings.Search.Last.{last_index-append, trim_prefix-append, take-length}
use gubal.Chromesweep.Sweep.{version_from_frame}
use gubal.ChromeBully.{chrome_version, safe_byte, sanitize, sanitize_from, rune_rest, frame_name}

rune_rest-safe : (b : ℕ) (s : Bytes) → safe_byte b ≡ true → rune_rest b s ≡ 0
unfolding rune_rest
rune_rest-safe b [] h = refl
rune_rest-safe b (c ∷ []) h = ground arith
rune_rest-safe b (c ∷ d ∷ []) h = ground arith
rune_rest-safe b (c ∷ d ∷ e ∷ s) h = ground arith

sanitize_from-safe : (s : Bytes) → All (λ b. safe_byte b ≡ true) s → sanitize_from 0 s ≡ s
unfolding sanitize_from
sanitize_from-safe [] h = refl
sanitize_from-safe (b ∷ s) (p, h) =
    rw (sanitize_from, p, rune_rest-safe b s p, sanitize_from-safe s h) refl

-- what the product string of a browser ends with
chrome_version-slash :
    (name version : Bytes)
    → Lacks b'/' version
    → version ≢ []
    → chrome_version (name ++ b'/' ∷ version) ≡ version
unfolding chrome_version
chrome_version-slash name version l ne =
    rw (chrome_version, last_index-append b'/' name version l, inside) (behind name)
  where
    nothing : (v : Bytes) → length v ≡ 0 → v ≡ []
    nothing [] h = refl
    nothing (c ∷ v) h = absurd (omega arith)

    inside : ltb (length name + 1) (length (name ++ b'/' ∷ version)) ≡ true
    inside = elim (Bool-cases (ltb (length name + 1) (length (name ++ b'/' ∷ version)))) [
      | inl e ↦ e
      | inr e ↦
          absurd (ne (nothing version (ground (arith, length-append name (b'/' ∷ version), e))))
    ]

    behind : (t : Bytes) → drop (length t + 1) (t ++ b'/' ∷ version) ≡ version
    behind [] = refl
    behind (c ∷ t) =
        let e : suc (length t) + 1 ≡ suc (length t + 1) = omega arith in rw e (behind t)

slashless : (s : Bytes) → All (λ b. safe_byte b ≡ true) s → Lacks b'/' s
slashless [] h = tt
slashless (b ∷ s) (p, h) = (ground arith, slashless s h)

-- what chromesweep makes of a name without its prefix
of_name : Bytes → Bytes
of_name name = elim (last_index name b'-') [ none ↦ [] | some i ↦ take i name ]

of_name-append :
    (version rest : Bytes) → Lacks b'-' rest → of_name (version ++ b'-' ∷ rest) ≡ version
unfolding of_name
of_name-append version rest l =
    rw (of_name, last_index-append b'-' version rest l) (take-length version (b'-' ∷ rest))

version_from_frame-of_name :
    (path : Bytes) → version_from_frame path ≡ of_name (trim_prefix (base path) (bytes "chrome-"))
unfolding version_from_frame of_name
version_from_frame-of_name path = refl

trim_prefix-frame_name :
    (version stamp : Bytes)
    → All (λ b. safe_byte b ≡ true) version
    → trim_prefix (frame_name version stamp) (bytes "chrome-")
      ≡ version ++ b'-' ∷ (stamp ++ bytes ".png")
unfolding frame_name sanitize
trim_prefix-frame_name version stamp safe =
    trim_prefix-append (bytes "chrome-") (sanitize_from 0 version ++ b'-' ∷ (stamp ++ bytes ".png"))
    ∙ ap (λ v. v ++ b'-' ∷ (stamp ++ bytes ".png")) (sanitize_from-safe version safe)

-- The version that chromesweep reads from the path of a frame is the version that chrome-bully found
-- in the browser's product, where that is a name, a slash and a version of safe bytes; the time in the
-- name holds no dash, and joining the path to the directory keeps the name of the file.
pub version_from_frame-frame_name :
    (join : Bytes → Bytes → Bytes) (out_dir name version stamp : Bytes)
    → All (λ b. safe_byte b ≡ true) version
    → version ≢ []
    → Lacks b'-' stamp
    → let file = frame_name (chrome_version (name ++ b'/' ∷ version)) stamp in
      base (join out_dir file) ≡ file → version_from_frame (join out_dir file) ≡ version
version_from_frame-frame_name join out_dir name version stamp safe ne l b =
    let found = chrome_version-slash name version (slashless version safe) ne in
    let rest = stamp ++ bytes ".png" in
    version_from_frame-of_name _
    ∙ ap (λ f. of_name (trim_prefix f (bytes "chrome-"))) b
    ∙ ap (λ v. of_name (trim_prefix (frame_name v stamp) (bytes "chrome-"))) found
    ∙ ap of_name (trim_prefix-frame_name version stamp safe)
    ∙ of_name-append version rest (All-append _ stamp (bytes ".png") l (omega arith))
