-- ===== src/Strings/Lines.antt =====
-- bufio.Scanner over the lines of a text.
pub mod Printed
use gubal.Common.{
  reverse, ℕ, List, [], ◌∷◌, ◌≡◌, refl, Bytes, bytes, leb, nat_eq, ◌==◌, if◌then◌else◌, length,
}
use gubal.Strings.Parts.{split}

drop_cr_back : Bytes → Bytes
drop_cr_back [] = []
drop_cr_back (c ∷ s) = if nat_eq c 13 then s else c ∷ s

drop_cr : Bytes → Bytes
unfolding drop_cr_back
drop_cr s = reverse (drop_cr_back (reverse s))

-- The scan ends at the first line that fills the buffer of `max` bytes. A last line that is empty is
-- no line.
tokens : ℕ → List Bytes → List Bytes
unfolding drop_cr ◌==◌
tokens max [] = []
tokens max (line ∷ []) =
    if line == [] then [] else if leb max (length line) then [] else drop_cr line ∷ []
tokens max (line ∷ next ∷ lines) =
    let rest = tokens max (next ∷ lines) in
    if leb max (length line) then [] else drop_cr line ∷ rest

unfoldable pub scan_lines : ℕ → Bytes → List Bytes
unfolding tokens split
scan_lines max s = tokens max (split 10 s)

three_lines : scan_lines 16 (bytes "a\r\n\nb\n") ≡ bytes "a" ∷ [] ∷ bytes "b" ∷ []
unfolding scan_lines
three_lines = refl

long_line : scan_lines 4 (bytes "abc\nabcd\ne") ≡ bytes "abc" ∷ []
unfolding scan_lines
long_line = refl
