-- ===== src/Strings/Numbers/Decimal.antt =====
-- Printing a number and reading it back.
use gubal.Common.{
  ℕ, zero, suc, ◌+◌, ◌-◌, ◌*◌, ◌/◌, ◌%◌, ◌^◌, ◌≤◌, ◌<◌, [], ◌∷◌, some, ◌≡◌, ◌≢◌, refl, sym, ap, ◌∙◌,
  arith, Bytes, nat_eq, ltb, leb, ◌&&◌, All, All-map, Bool-cases, inl, inr, true, false,
}
use gubal.Common.Int.{ℤ, pos, negsuc}
use gubal.Strings.Numbers.{
  digits, format_nat, itoa, scan, read_digits, in_range, negate, signed, atoi,
}

abbrev pub IsDigit : ℕ → Type 0
IsDigit c = (b'0' ≤ c) × (c ≤ b'9')

digits-IsDigit : (fuel n : ℕ) (out : Bytes) → All IsDigit out → All IsDigit (digits fuel n out)
unfolding digits
digits-IsDigit zero n out h = h
digits-IsDigit (suc fuel) n out h = elim (Bool-cases (nat_eq n 0)) [
  | inl e ↦ rw e h
  | inr e ↦ rw e (digits-IsDigit fuel (n / 10) _ ((omega arith, omega arith), h))
]

scan-cons : (out : Bytes) (n : ℕ) → scan ((b'0' + n % 10) ∷ out) (n / 10) ≡ scan out n
unfolding scan
scan-cons out n =
    let v : n / 10 * 10 + (b'0' + n % 10 - b'0') ≡ n = omega arith in
    let d : (leb b'0' (b'0' + n % 10) && leb (b'0' + n % 10) b'9') ≡ true = ground arith in
    rw (d, v) refl

scan-digits : (fuel n : ℕ) (out : Bytes) → n ≤ fuel → scan (digits fuel n out) 0 ≡ scan out n
unfolding digits
scan-digits zero n out h = let e : n ≡ 0 = omega arith in rw e refl
scan-digits (suc fuel) n out h = elim (Bool-cases (nat_eq n 0)) [
  | inl e ↦ let z : n ≡ 0 = ground arith in rw z refl
  | inr e ↦
      let ne : n ≢ 0 = ground arith in
      rw e (scan-digits fuel (n / 10) _ (omega arith) ∙ scan-cons out n)
]

digits-cons-ne : (fuel n c : ℕ) (out : Bytes) → digits fuel n (c ∷ out) ≢ []
unfolding digits
digits-cons-ne zero n c out h = cc h
digits-cons-ne (suc fuel) n c out h = elim (Bool-cases (nat_eq n 0)) [
  | inl e ↦ let h' = rw (digits, e) at h in cc h'
  | inr e ↦ digits-cons-ne fuel (n / 10) _ (c ∷ out) (rw (digits, e) at h)
]

digits-ne : (fuel n : ℕ) → n ≢ 0 → n ≤ fuel → digits fuel n [] ≢ []
unfolding digits
digits-ne zero n h l e = h (omega arith)
digits-ne (suc fuel) n h l e =
    let ne : nat_eq n 0 ≡ false = ground arith in
    digits-cons-ne fuel (n / 10) _ [] (rw (digits, ne) at e)

format_nat-ne : (n : ℕ) → format_nat n ≢ []
unfolding format_nat
format_nat-ne n h = elim (Bool-cases (nat_eq n 0)) [
  | inl e ↦ let h' = rw (format_nat, e) at h in cc h'
  | inr e ↦ digits-ne n n (ground arith) (omega arith) (rw (format_nat, e) at h)
]

pub format_nat-IsDigit : (n : ℕ) → All IsDigit (format_nat n)
unfolding format_nat
format_nat-IsDigit n = elim (Bool-cases (nat_eq n 0)) [
  | inl e ↦ rw e ((omega arith, omega arith), tt)
  | inr e ↦ rw e (digits-IsDigit n n [] tt)
]

scan-format_nat : (n : ℕ) → scan (format_nat n) 0 ≡ some n
unfolding format_nat
scan-format_nat n = elim (Bool-cases (nat_eq n 0)) [
  | inl e ↦ let z : n ≡ 0 = ground arith in rw z (unfold scan in refl)
  | inr e ↦ rw e (scan-digits n n [] (omega arith) ∙ unfold scan in refl)
]

read_digits-scan : (s : Bytes) → s ≢ [] → read_digits s ≡ scan s 0
unfolding read_digits
read_digits-scan [] h = absurd (h refl)
read_digits-scan (c ∷ s) h = refl

read_digits-format_nat : (n : ℕ) → read_digits (format_nat n) ≡ some n
read_digits-format_nat n = read_digits-scan (format_nat n) (format_nat-ne n) ∙ scan-format_nat n

atoi_unsigned : (s : Bytes) → s ≢ [] → All IsDigit s → atoi s ≡ signed pos (read_digits s)
unfolding atoi
atoi_unsigned [] h d = absurd (h refl)
atoi_unsigned (c ∷ s) h ((lo, hi), d) =
    let minus : nat_eq c b'-' ≡ false = ground arith in
    let plus : nat_eq c b'+' ≡ false = ground arith in rw (minus, plus) refl

-- the range of a 64-bit int
abbrev pub InRange : ℤ → Type 0
InRange (pos n) = n < 2 ^ 63
InRange (negsuc n) = n < 2 ^ 63

-- Itoa prints every 64-bit int as a text that Atoi reads back as that int.
pub atoi-itoa : (z : ℤ) → InRange z → atoi (itoa z) ≡ some z
unfolding itoa atoi signed
atoi-itoa (pos n) h =
    atoi_unsigned (format_nat n) (format_nat-ne n) (format_nat-IsDigit n)
    ∙ ap (signed pos) (read_digits-format_nat n)
    ∙ unfold signed in_range in (let lt : ltb n (2 ^ 63) ≡ true = ground arith in rw lt refl)
atoi-itoa (negsuc n) h =
    ap (signed negate) (read_digits-format_nat (suc n))
    ∙ unfold signed in_range negate in (let lt : ltb n (2 ^ 63) ≡ true = ground arith in rw lt refl)

format_nat_injective : (m n : ℕ) → format_nat m ≡ format_nat n → m ≡ n
format_nat_injective m n e =
    let same : some m ≡ some n =
      sym (scan-format_nat m) ∙ ap (λ s. scan s 0) e ∙ scan-format_nat n in
    cc same

not_minus : (s t : Bytes) → All IsDigit s → s ≢ b'-' ∷ t
not_minus [] t d e = cc e
not_minus (c ∷ s) t ((lo, hi), d) e = let same : c ≡ b'-' = cc e in absurd (omega arith)

pub itoa_injective : (a b : ℤ) → itoa a ≡ itoa b → a ≡ b
unfolding itoa
itoa_injective (pos m) (pos n) e = ap pos (format_nat_injective m n e)
itoa_injective (pos m) (negsuc n) e = absurd (not_minus _ _ (format_nat-IsDigit m) e)
itoa_injective (negsuc m) (pos n) e = absurd (not_minus _ _ (format_nat-IsDigit n) (sym e))
itoa_injective (negsuc m) (negsuc n) e =
    let same : format_nat (suc m) ≡ format_nat (suc n) = cc e in
    let q = format_nat_injective (suc m) (suc n) same in
    let q' : m ≡ n = omega (arith, q) in ap negsuc q'

pub itoa-ne : (z : ℤ) → itoa z ≢ []
unfolding itoa
itoa-ne (pos n) e = format_nat-ne n e
itoa-ne (negsuc n) e = cc e

-- digits, perhaps behind a minus
abbrev pub IsNumeric : ℕ → Type 0
IsNumeric c = (b'-' ≤ c) × (c ≤ b'9') × (c ≢ b'/')

pub itoa-IsNumeric : (z : ℤ) → All IsNumeric (itoa z)
unfolding itoa
itoa-IsNumeric (pos n) =
    All-map _ (λ c (lo, hi). (omega arith, omega arith, omega arith)) (format_nat-IsDigit n)
itoa-IsNumeric (negsuc n) = (
  (omega arith, omega arith, omega arith),
  All-map _ (λ c (lo, hi). (omega arith, omega arith, omega arith)) (format_nat-IsDigit (suc n)),
)
