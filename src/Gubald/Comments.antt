-- ===== src/Gubald/Comments.antt =====
-- cmd/gubald/svc/smoketest/comments.go. The limit `max` of capTo is a difference, which is below 0
-- where the rest of a comment is over the limit: it is passed as the limit and what is taken off.
use native.Mathlib.Decide.{dec_lt}
use gubal.Common.{
  ℕ, zero, suc, ◌+◌, ◌-◌, ◌≤◌, ◌<◌, Bool, true, false, not, ◌&&◌, [], ◌∷◌, ◌++◌, ◌≡◌, refl, arith,
  Bytes, bytes, ◌==◌, leb, ltb, if◌then◌else◌, length, take, ◌⊎◌, inl, inr, Bool-cases,
  length-append,
}
use gubal.Common.Int.{pos}
use gubal.Strings.{itoa}

abbrev pub max_comment_bytes : ℕ
max_comment_bytes = 65536

abbrev pub note : Bytes
note = bytes "\n\n_…report truncated (exceeded GitHub's comment size limit)_"

-- utf8.RuneStart: not a continuation byte
abbrev pub rune_start : ℕ → Bool
rune_start b = not (leb 0x80 b && ltb b 0xc0)

-- of the byte at an index; the loop looks only at bytes within the string
abbrev pub rune_start_at : Bytes → ℕ → Bool
rune_start_at [] i = true
rune_start_at (b ∷ s) zero = rune_start b
rune_start_at (b ∷ s) (suc i) = rune_start_at s i

-- the loop on `limit`
unfoldable pub cut_at : Bytes → ℕ → ℕ
cut_at s zero = zero
cut_at s (suc limit) =
    let rest = cut_at s limit in if rune_start_at s (suc limit) then suc limit else rest

unfoldable pub cap_to : Bytes → ℕ → ℕ → Bytes
cap_to s max taken =
    if leb (length s + taken) max
    then s
    else take (cut_at s (max - (taken + length note))) s ++ note

unfoldable pub sha_suffix : Bytes → Bytes
sha_suffix sha = if sha == [] then [] else bytes " (`" ++ (sha ++ bytes "`)")

unfoldable pub body_ack : Bytes → ℕ → Bytes
body_ack sha version_count =
    bytes "🧪 Running Gubal smoke test against "
    ++ (itoa (pos version_count)
        ++ (bytes " browser version(s)"
            ++ (sha_suffix sha
                ++ bytes ". This takes a while; results will follow in a new comment.")))

abbrev pub body_busy : Bytes
body_busy =
    bytes "⏳ Gubal is already running another smoke test. Re-run `/gubaltest` once it finishes."

unfoldable pub result_head : Bool → Bytes → Bytes
result_head success sha =
    (if success
      then bytes "✅ Gubal smoke test passed"
      else bytes "❌ Gubal smoke test found failures")
    ++ (sha_suffix sha ++ bytes "\n\n")

unfoldable pub result_tail : Bytes → Bytes
result_tail bundle_url =
    if bundle_url == []
    then []
    else bytes "\n\n📦 [Download report bundle (frames + logs)]("
      ++ (bundle_url ++ bytes ") — link expires in 24h")

unfoldable pub body_result : Bool → Bytes → Bytes → Bytes → Bytes
body_result success report sha bundle_url =
    let head = result_head success sha in
    let tail = result_tail bundle_url in
    head ++ (cap_to report max_comment_bytes (length head + length tail) ++ tail)

unfoldable pub body_run_error : Bytes → Bytes → Bytes
body_run_error sha error =
    cap_to (bytes "❌ Gubal smoke test failed to run" ++ (sha_suffix sha ++ (bytes ": " ++ error)))
      max_comment_bytes 0

cut_at_le : (s : Bytes) (limit : ℕ) → cut_at s limit ≤ limit
unfolding cut_at
cut_at_le s zero = omega arith
cut_at_le s (suc limit) = ground (arith, cut_at_le s limit)

cut_at_start :
    (s : Bytes) (limit : ℕ) → (cut_at s limit ≡ 0) ⊎ (rune_start_at s (cut_at s limit) ≡ true)
unfolding cut_at
cut_at_start s zero = inl refl
cut_at_start s (suc limit) = elim (Bool-cases (rune_start_at s (suc limit))) [
  | inl e ↦ rw e (inr e)
  | inr e ↦ rw e (cut_at_start s limit)
]

cut_at_between :
    (s : Bytes) (limit k : ℕ) → cut_at s limit < k → k ≤ limit → rune_start_at s k ≡ false
unfolding cut_at
cut_at_between s zero k l h = absurd (omega arith)
cut_at_between s (suc limit) k l h = elim (Bool-cases (rune_start_at s (suc limit))) [
  | inl e ↦ absurd (let l' = rw e at l in omega arith)
  | inr e ↦ elim (dec_lt limit k) [
    | yes lt ↦ let same : k ≡ suc limit = omega arith in rw same e
    | no ge ↦ cut_at_between s limit k (rw e at l) (omega arith)
  ]
]

length-take_le : (n : ℕ) (s : Bytes) → length (take n s) ≤ n
length-take_le zero s = omega arith
length-take_le (suc n) [] = omega arith
length-take_le (suc n) (x ∷ s) = ground (arith, length-take_le n s)

-- what is taken off leaves room for the note
cap_to_fits :
    (s : Bytes) (max taken : ℕ)
    → taken + length note ≤ max
    → length (cap_to s max taken) + taken ≤ max
unfolding cap_to
cap_to_fits s max taken room =
    let n = cut_at s (max - (taken + length note)) in
    ground (
      arith,
      cut_at_le s (max - (taken + length note)),
      length-take_le n s,
      length-append (take n s) note,
    )

-- A comment with the result of a run is within GitHub's limit, whatever the report, where the head
-- and the link leave room for the note on the truncation.
pub body_result_fits :
    (success : Bool) (report sha bundle_url : Bytes)
    → length (result_head success sha) + length (result_tail bundle_url) + length note
      ≤ max_comment_bytes
    → length (body_result success report sha bundle_url) ≤ max_comment_bytes
unfolding body_result
body_result_fits success report sha bundle_url room =
    let head = result_head success sha in
    let tail = result_tail bundle_url in
    let report' = cap_to report max_comment_bytes (length head + length tail) in
    let fits = cap_to_fits report max_comment_bytes (length head + length tail) room in
    omega (arith, fits, length-append head (report' ++ tail), length-append report' tail)

-- A text that is not over the limit is kept; one that is over it is cut before the limit less the
-- note, where a rune starts or at the start of the text, and no rune starts between the cut and there.
-- Where the limit is below the note's length, nothing of the text is left, and the note is over it.
pub cap_to_cut :
    (s : Bytes) (max taken : ℕ)
    → ((length s + taken ≤ max) × (cap_to s max taken ≡ s))
      ⊎ ((max < length s + taken)
          × (n : ℕ) × (cap_to s max taken ≡ take n s ++ note)
          × (n ≤ max - (taken + length note))
          × ((n ≡ 0) ⊎ (rune_start_at s n ≡ true))
          × ((k : ℕ) → n < k → k ≤ max - (taken + length note) → rune_start_at s k ≡ false))
unfolding cap_to
cap_to_cut s max taken =
    let limit = max - (taken + length note) in
    elim (Bool-cases (leb (length s + taken) max)) [
      | inl e ↦ inl (ground arith, rw e refl)
      | inr e ↦ inr (
        ground arith,
        cut_at s limit,
        rw e refl,
        cut_at_le s limit,
        cut_at_start s limit,
        cut_at_between s limit,
      )
    ]

-- The comment on a run that could not be made is within GitHub's limit, whatever the error.
pub body_run_error_fits :
    (sha error : Bytes) → length (body_run_error sha error) ≤ max_comment_bytes
unfolding body_run_error
body_run_error_fits sha error =
    let fits =
      cap_to_fits
        (bytes "❌ Gubal smoke test failed to run" ++ (sha_suffix sha ++ (bytes ": " ++ error)))
        max_comment_bytes 0 (omega arith) in
    omega (arith, fits)
