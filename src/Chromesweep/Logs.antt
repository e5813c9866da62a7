-- ===== src/Chromesweep/Logs.antt =====
-- reportedUA and capturedFramePath of chromesweep/parse.go. encoding/json is a parameter: what
-- Unmarshal makes of one line, none if it fails.
use gubal.Common.{
  ℕ, ◌+◌, ◌*◌, not, List, [], ◌∷◌, ◌++◌, Option, none, some, ◌≡◌, refl, ◌∙◌, arith, Bytes, bytes,
  ◌==◌, Result, ok, err, if◌then◌else◌, length, drop, All,
}
use gubal.Strings.{scan_lines, index, trim_space}

abbrev pub marker : Bytes
marker = bytes "User-Agent: "

-- bufio.MaxScanTokenSize, the limit of a scanner whose Buffer is not set
abbrev pub max_scan_token_size : ℕ
max_scan_token_size = 64 * 1024

abbrev pub bully_token_size : ℕ
bully_token_size = 1024 * 1024

-- one round of the scan
ua_step : Bytes → Bytes → Bytes
ua_step ua line = elim (index line marker) [
  | none ↦ ua
  | some i ↦ trim_space (drop (i + length marker) line)
]

ua_loop : Bytes → List Bytes → Bytes
ua_loop ua [] = ua
ua_loop ua (line ∷ lines) = ua_loop (ua_step ua line) lines

unfoldable pub reported_ua : Bytes → Bytes
unfolding ua_loop ua_step
reported_ua smoke_logs = ua_loop [] (scan_lines max_scan_token_size smoke_logs)

pub record LogLine : Type 0 where
  pub msg : Bytes
  pub path : Bytes
  pub error : Bytes

-- what the switch makes of one line; `none` goes on with the next
unfoldable pub verdict : Option LogLine → Option (Result Bytes Bytes)
unfolding ◌==◌
verdict none = none
verdict (some l) =
    if l.msg == bytes "captured"
    then (if not (l.path == []) then some (ok l.path) else none)
    else if l.msg == bytes "fatal"
    then some (err (bytes "chrome-bully failed: " ++ l.error))
    else none

module _ (unmarshal : Bytes → Option LogLine) where
  frame_loop : List Bytes → Result Bytes Bytes
  frame_loop [] = err (bytes "no captured frame in chrome-bully logs")
  frame_loop (line ∷ lines) = elim (verdict (unmarshal line)) [
    | some r ↦ r
    | none ↦ frame_loop lines
  ]

  unfoldable pub captured_frame_path : Bytes → Result Bytes Bytes
  unfolding frame_loop
  captured_frame_path bully_logs = frame_loop (scan_lines bully_token_size bully_logs)

  frame_loop_skip :
      (xs ys : List Bytes)
      → All (λ line. verdict (unmarshal line) ≡ none) xs
      → frame_loop (xs ++ ys) ≡ frame_loop ys
  unfolding frame_loop
  frame_loop_skip [] ys _ = refl
  frame_loop_skip (x ∷ xs) ys (h, hs) = ground (arith, frame_loop_skip xs ys hs)

  -- The first line within the scan that says "captured" with a path, or "fatal", decides the
  -- result, whatever lines come after it.
  pub captured_frame_path_decided :
      (logs : Bytes) (xs : List Bytes) (line : Bytes) (ys : List Bytes) {r : Result Bytes Bytes}
      → scan_lines bully_token_size logs ≡ xs ++ line ∷ ys
      → All (λ l. verdict (unmarshal l) ≡ none) xs
      → verdict (unmarshal line) ≡ some r
      → captured_frame_path logs ≡ r
  unfolding captured_frame_path
  captured_frame_path_decided logs xs line ys e quiet h =
      rw (e, frame_loop_skip xs (line ∷ ys) quiet) (ground arith)

  frame_loop_quiet :
      (xs : List Bytes)
      → All (λ line. verdict (unmarshal line) ≡ none) xs
      → frame_loop xs ≡ err (bytes "no captured frame in chrome-bully logs")
  unfolding frame_loop
  frame_loop_quiet [] _ = refl
  frame_loop_quiet (x ∷ xs) (h, hs) = ground (arith, frame_loop_quiet xs hs)

  -- A log with no such line within the scan is an error.
  pub captured_frame_path_undecided :
      (logs : Bytes)
      → All (λ l. verdict (unmarshal l) ≡ none) (scan_lines bully_token_size logs)
      → captured_frame_path logs ≡ err (bytes "no captured frame in chrome-bully logs")
  captured_frame_path_undecided logs quiet = unfold captured_frame_path in frame_loop_quiet _ quiet

ua_step-none : (ua line : Bytes) → index line marker ≡ none → ua_step ua line ≡ ua
unfolding ua_step
ua_step-none ua line h = ground arith

ua_step-some :
    (ua line : Bytes) {i : ℕ}
    → index line marker ≡ some i
    → ua_step ua line ≡ trim_space (drop (i + length marker) line)
unfolding ua_step
ua_step-some ua line h = ground arith

ua_loop-append :
    (ua : Bytes) (xs ys : List Bytes) → ua_loop ua (xs ++ ys) ≡ ua_loop (ua_loop ua xs) ys
unfolding ua_loop
ua_loop-append ua [] ys = refl
ua_loop-append ua (x ∷ xs) ys = ua_loop-append (ua_step ua x) xs ys

ua_loop_quiet :
    (ua : Bytes) (ys : List Bytes) → All (λ line. index line marker ≡ none) ys → ua_loop ua ys ≡ ua
unfolding ua_loop
ua_loop_quiet ua [] _ = refl
ua_loop_quiet ua (y ∷ ys) (h, hs) = rw (ua_step-none ua y h) (ua_loop_quiet ua ys hs)

ua_loop_cons :
    (ua line : Bytes) (ys : List Bytes) → ua_loop ua (line ∷ ys) ≡ ua_loop (ua_step ua line) ys
unfolding ua_loop
ua_loop_cons ua line ys = refl

ua_loop_last :
    (xs : List Bytes) (line : Bytes) (ys : List Bytes) {i : ℕ}
    → index line marker ≡ some i
    → All (λ l. index l marker ≡ none) ys
    → ua_loop [] (xs ++ line ∷ ys) ≡ trim_space (drop (i + length marker) line)
ua_loop_last xs line ys h quiet =
    ua_loop-append [] xs (line ∷ ys)
    ∙ ua_loop_cons _ line ys
    ∙ ua_loop_quiet _ ys quiet
    ∙ ua_step-some _ line h

-- The last line within the scan that holds the marker gives the User-Agent: what follows the first
-- marker in it, trimmed.
pub reported_ua_last :
    (logs : Bytes) (xs : List Bytes) (line : Bytes) (ys : List Bytes) {i : ℕ}
    → scan_lines max_scan_token_size logs ≡ xs ++ line ∷ ys
    → index line marker ≡ some i
    → All (λ l. index l marker ≡ none) ys
    → reported_ua logs ≡ trim_space (drop (i + length marker) line)
unfolding reported_ua
reported_ua_last logs xs line ys e h quiet = rw e (ua_loop_last xs line ys h quiet)
