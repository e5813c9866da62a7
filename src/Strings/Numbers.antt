-- ===== src/Strings/Numbers.antt =====
-- strconv.Itoa and strconv.Atoi, and the case of ASCII letters.
pub mod Decimal
use gubal.Common.{
  ℕ, zero, suc, ◌+◌, ◌-◌, ◌*◌, ◌/◌, ◌%◌, ◌^◌, ◌&&◌, [], ◌∷◌, Option, none, some, ◌≡◌, refl, map,
  Bytes, bytes, ltb, leb, nat_eq, if◌then◌else◌,
}
use gubal.Common.Int.{ℤ, pos, negsuc}

-- The fuel is the number itself, which has fewer digits than that.
digits : ℕ → ℕ → Bytes → Bytes
digits zero n out = out
digits (suc fuel) n out =
    let rest = digits fuel (n / 10) ((b'0' + n % 10) ∷ out) in if nat_eq n 0 then out else rest

unfoldable pub format_nat : ℕ → Bytes
unfolding digits
format_nat n = if nat_eq n 0 then b'0' ∷ [] else digits n n []

unfoldable pub itoa : ℤ → Bytes
unfolding format_nat
itoa (pos n) = format_nat n
itoa (negsuc n) = b'-' ∷ format_nat (suc n)

-- the digits of a number, with no bound; the bound is tested at the end
scan : Bytes → ℕ → Option ℕ
scan [] n = some n
scan (c ∷ s) n =
    let rest = scan s (n * 10 + (c - b'0')) in if leb b'0' c && leb c b'9' then rest else none

read_digits : Bytes → Option ℕ
unfolding scan
read_digits [] = none
read_digits (c ∷ s) = scan (c ∷ s) 0

-- the range of a 64-bit int
in_range : ℤ → Option ℤ
in_range (pos n) = if ltb n (2 ^ 63) then some (pos n) else none
in_range (negsuc n) = if ltb n (2 ^ 63) then some (negsuc n) else none

negate : ℕ → ℤ
negate zero = pos 0
negate (suc n) = negsuc n

signed : (ℕ → ℤ) → Option ℕ → Option ℤ
unfolding in_range
signed f none = none
signed f (some n) = in_range (f n)

-- An optional sign, then one or more digits; `none` is an error of syntax or of range.
unfoldable pub atoi : Bytes → Option ℤ
unfolding read_digits signed negate
atoi [] = none
atoi (c ∷ s) =
    if nat_eq c b'-'
    then signed negate (read_digits s)
    else if nat_eq c b'+'
    then signed pos (read_digits s)
    else signed pos (read_digits (c ∷ s))

lower_byte : ℕ → ℕ
lower_byte c = if leb b'A' c && leb c b'Z' then c + 32 else c

-- the letters A to Z as small ones; other bytes are left as they are
unfoldable pub ascii_lower : Bytes → Bytes
unfolding lower_byte map
ascii_lower = map lower_byte

-- strings.ToUpper of a text of one byte: a byte that is no ASCII is no rune, and becomes U+FFFD
unfoldable pub to_upper_byte : ℕ → Bytes
to_upper_byte c =
    if leb b'a' c && leb c b'z'
    then (c - 32) ∷ []
    else if ltb c 0x80
    then c ∷ []
    else 0xef ∷ 0xbf ∷ 0xbd ∷ []

prints : itoa (pos 1050) ≡ bytes "1050"
unfolding itoa
prints = refl

reads :
    (atoi (bytes "-0150") ≡ some (negsuc 149))
    × (atoi (bytes "1 ") ≡ none)
    × (atoi (bytes "9223372036854775808") ≡ none)
unfolding atoi
reads = (refl, refl, refl)
