-- ===== src/Chromesweep/Report/Tail.antt =====
-- lastLines, titleCase and dash of chromesweep/report.go.
use Prim.Native.Nat.{min}
use gubal.Common.{
  zero, suc, ℕ, ◌-◌, ◌<◌, List, [], ◌∷◌, ◌++◌, ◌≡◌, ◌≢◌, refl, ap, sym, ◌∙◌, arith, Bytes, bytes,
  ◌==◌, if◌then◌else◌, ltb, length, take, drop, All, Lacks, Bool-cases, inl, inr, ◌⊎◌, append-nil,
  length-drop, take-append-drop, append_assoc,
}
use gubal.Strings.{split, join, trim_right_byte, to_upper_byte}
use gubal.Strings.Parts.{split-ne-nil, split-Lacks, join-split, split-join}

abbrev pub newline : ℕ
newline = 10

keep_last : ℕ → List Bytes → List Bytes
keep_last n lines = if ltb n (length lines) then drop (length lines - n) lines else lines

unfoldable pub last_lines : Bytes → ℕ → Bytes
unfolding keep_last
last_lines s n = join (newline ∷ []) (keep_last n (split newline (trim_right_byte newline s)))

unfoldable pub title_case : Bytes → Bytes
unfolding to_upper_byte
title_case [] = []
title_case (c ∷ s) = to_upper_byte c ++ s

unfoldable pub dash : Bytes → Bytes
dash s = if s == [] then bytes "—" else s

drop-All : (P : Bytes → Type 0) (n : ℕ) (ls : List Bytes) → All P ls → All P (drop n ls)
drop-All P zero ls h = h
drop-All P (suc n) [] h = tt
drop-All P (suc n) (l ∷ ls) (h, hs) = drop-All P n ls hs

keep_last-Lacks :
    (n : ℕ) (ls : List Bytes) → All (Lacks newline) ls → All (Lacks newline) (keep_last n ls)
unfolding keep_last
keep_last-Lacks n ls h = elim (Bool-cases (ltb n (length ls))) [
  | inl e ↦ rw e (drop-All _ (length ls - n) ls h)
  | inr e ↦ rw e h
]

length-keep_last : (n : ℕ) (ls : List Bytes) → length (keep_last n ls) ≡ min n (length ls)
unfolding keep_last
length-keep_last n ls = ground (arith, length-drop (length ls - n) ls)

-- what is kept ends the whole
keep_last-suffix : (n : ℕ) (ls : List Bytes) → (xs : List Bytes) × (ls ≡ xs ++ keep_last n ls)
unfolding keep_last
keep_last-suffix n ls = elim (Bool-cases (ltb n (length ls))) [
  | inl e ↦ rw e (take (length ls - n) ls, sym (take-append-drop (length ls - n) ls))
  | inr e ↦ rw e ([], refl)
]

-- a text that is empty or ends with `sep`
abbrev EndsWith : Bytes → Bytes → Type 0
EndsWith sep pre = (pre ≡ []) ⊎ ((p : Bytes) × (pre ≡ p ++ sep))

append-EndsWith :
    (sep x : Bytes) {pre : Bytes} → EndsWith sep pre → EndsWith sep (x ++ (sep ++ pre))
append-EndsWith sep x (inl e) = inr (x, rw e (simp append-nil))
append-EndsWith sep x (inr (p, e)) = inr (x ++ (sep ++ p), rw e (simp append_assoc))

join-append :
    (sep : Bytes) (xs ys : List Bytes)
    → ys ≢ []
    → (pre : Bytes) × (join sep (xs ++ ys) ≡ pre ++ join sep ys) × EndsWith sep pre
unfolding join
join-append sep [] ys h = ([], refl, inl refl)
join-append sep (x ∷ []) [] h = absurd (h refl)
join-append sep (x ∷ []) (y ∷ ys) h =
    (x ++ sep, sym (append_assoc x sep (join sep (y ∷ ys))), inr (x, refl))
join-append sep (x ∷ z ∷ xs) ys h =
    let (pre, e, lines) = join-append sep (z ∷ xs) ys h in
    (x ++ (sep ++ pre), rw e (simp append_assoc), append-EndsWith sep x lines)

ne_of_length : (ls : List Bytes) → 0 < length ls → ls ≢ []
ne_of_length [] h = absurd (omega arith)
ne_of_length (l ∷ ls) h = ground arith

length_pos : (ls : List Bytes) → ls ≢ [] → 0 < length ls
length_pos [] h = absurd (h refl)
length_pos (l ∷ ls) h = omega arith

-- For n > 0 the last n lines are whole lines at the end of the text without all its trailing
-- newlines: what is before them is empty or ends with a newline. They are n lines, or all of them
-- where there are fewer.
pub last_lines_lem :
    (s : Bytes) (n : ℕ)
    → 0 < n
    → ((pre : Bytes) × (trim_right_byte newline s ≡ pre ++ last_lines s n)
        × ((pre ≡ []) ⊎ ((p : Bytes) × (pre ≡ p ++ newline ∷ []))))
      × (length (split newline (last_lines s n))
          ≡ min n (length (split newline (trim_right_byte newline s))))
last_lines_lem s n h =
    let text = trim_right_byte newline s in
    let lines = split newline text in
    let (xs, e) = keep_last-suffix n lines in
    let size = length-keep_last n lines in
    let some_lines = length_pos lines (split-ne-nil newline text) in
    let kept = ne_of_length (keep_last n lines) (omega arith) in
    let (pre, j, ends) = join-append (newline ∷ []) xs (keep_last n lines) kept in
    unfold last_lines in
    (
      (pre, sym (join-split newline text) ∙ ap (join (newline ∷ [])) e ∙ j, ends),
      rw
          (split-join newline (keep_last n lines) kept
            (keep_last-Lacks n lines (split-Lacks newline text)))
          size,
    )
