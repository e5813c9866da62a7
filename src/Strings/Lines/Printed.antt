-- ===== src/Strings/Lines/Printed.antt =====
-- The lines that a scan reads from a text that was printed line by line.
use gubal.Common.{
  ℕ, ◌<◌, List, [], ◌∷◌, ◌++◌, ◌≡◌, ◌≢◌, refl, ap, ◌∙◌, arith, Bytes, nat_eq_iff, length, reverse,
  All, Lacks,
}
use mathlib.Core.List.{reverse-reverse}
use gubal.Strings.Parts.{split, split-append}
use gubal.Strings.Trim.Plain.{All-reverse_aux}
use gubal.Strings.Lines.{drop_cr, drop_cr_back, tokens, scan_lines}

-- each line and a newline
abbrev pub print_lines : List Bytes → Bytes
print_lines [] = []
print_lines (l ∷ ls) = l ++ 10 ∷ print_lines ls

-- a line that a scan with this limit reads as it was printed
abbrev pub Scans : ℕ → Bytes → Type 0
Scans limit l = Lacks 10 l × Lacks 13 l × (length l < limit)

split-print_lines :
    (limit : ℕ) (ls : List Bytes) → All (Scans limit) ls → split 10 (print_lines ls) ≡ ls ++ [] ∷ []
split-print_lines limit [] h = unfold split in refl
split-print_lines limit (l ∷ ls) (p, h) =
    split-append 10 l (print_lines ls) p.0 ∙ ap (λ r. l ∷ r) (split-print_lines limit ls h)

drop_cr_back_lem : (s : Bytes) → Lacks 13 s → drop_cr_back s ≡ s
unfolding drop_cr_back
drop_cr_back_lem [] h = refl
drop_cr_back_lem (c ∷ s) (hc, h) = ground (arith, nat_eq_iff c 13)

drop_cr_lem : (s : Bytes) → Lacks 13 s → drop_cr s ≡ s
unfolding drop_cr
drop_cr_lem s h =
    ap (λ r. reverse r) (drop_cr_back_lem (reverse s) (All-reverse_aux (λ c. c ≢ 13) s [] h tt))
    ∙ reverse-reverse s

tokens_lem :
    (limit : ℕ) (ls : List Bytes) → All (Scans limit) ls → tokens limit (ls ++ [] ∷ []) ≡ ls
unfolding tokens
tokens_lem limit [] h = refl
tokens_lem limit (l ∷ []) ((n, r, b), h) = rw (drop_cr_lem l r) (ground arith)
tokens_lem limit (l ∷ m ∷ ls) ((n, r, b), h) =
    rw (drop_cr_lem l r, tokens_lem limit (m ∷ ls) h) (ground arith)

-- A scan of printed lines gives the lines back, if none holds a newline or a carriage return or fills
-- the buffer.
pub scan_lines-print_lines :
    (limit : ℕ) (ls : List Bytes) → All (Scans limit) ls → scan_lines limit (print_lines ls) ≡ ls
unfolding scan_lines
scan_lines-print_lines limit ls h =
    ap (λ r. tokens limit r) (split-print_lines limit ls h) ∙ tokens_lem limit ls h
