-- ===== src/Strings/Trim.antt =====
-- strings.TrimSpace and strings.TrimRight with one byte.

pub mod Plain
use gubal.Common.{
  reverse, ℕ, zero, suc, Bool, ◌&&◌, ◌||◌, [], ◌∷◌, ◌≡◌, refl, Bytes, bytes, leb, nat_eq,
  if◌then◌else◌,
}

-- '\t', '\n', '\v', '\f', '\r', ' '
ascii_space : ℕ → Bool
ascii_space c = (leb 9 c && leb c 13) || nat_eq c 32

-- U+0085 and U+00A0
space2 : ℕ → ℕ → Bool
space2 c d = nat_eq c 0xc2 && (nat_eq d 0x85 || nat_eq d 0xa0)

-- U+1680, U+2000 to U+200A, U+2028, U+2029, U+202F, U+205F, U+3000
space3 : ℕ → ℕ → ℕ → Bool
space3 c d e =
    (nat_eq c 0xe1 && nat_eq d 0x9a && nat_eq e 0x80)
    || (nat_eq c 0xe2
        && nat_eq d 0x80
        && ((leb 0x80 e && leb e 0x8a) || nat_eq e 0xa8 || nat_eq e 0xa9 || nat_eq e 0xaf))
    || (nat_eq c 0xe2 && nat_eq d 0x81 && nat_eq e 0x9f)
    || (nat_eq c 0xe3 && nat_eq d 0x80 && nat_eq e 0x80)

-- how many bytes the white space at the front of a text takes; 0 if there is none
space_len : Bytes → ℕ
unfolding ascii_space space2 space3
space_len [] = 0
space_len (c ∷ []) = if ascii_space c then 1 else 0
space_len (c ∷ d ∷ []) = if ascii_space c then 1 else if space2 c d then 2 else 0
space_len (c ∷ d ∷ e ∷ s) =
    if ascii_space c then 1 else if space2 c d then 2 else if space3 c d e then 3 else 0

-- the same at the end of a text, which is read backwards
space_len_back : Bytes → ℕ
unfolding ascii_space space2 space3
space_len_back [] = 0
space_len_back (e ∷ []) = if ascii_space e then 1 else 0
space_len_back (e ∷ d ∷ []) = if ascii_space e then 1 else if space2 d e then 2 else 0
space_len_back (e ∷ d ∷ c ∷ s) =
    if ascii_space e then 1 else if space2 d e then 2 else if space3 c d e then 3 else 0

-- drops what `len` measures again and again; the number is of bytes still to drop
trim_by : (Bytes → ℕ) → ℕ → Bytes → Bytes
trim_by len k [] = []
trim_by len (suc k) (c ∷ s) = trim_by len k s
trim_by len zero (c ∷ s) = elim (len (c ∷ s)) [ zero ↦ c ∷ s | suc k ↦ trim_by len k s ]

unfoldable pub trim_space : Bytes → Bytes
unfolding trim_by space_len space_len_back
trim_space s = reverse (trim_by space_len_back 0 (reverse (trim_by space_len 0 s)))

byte_len : ℕ → Bytes → ℕ
byte_len b [] = 0
byte_len b (c ∷ s) = if nat_eq c b then 1 else 0

-- strings.TrimRight(s, cutset) where the cutset is one byte
unfoldable pub trim_right_byte : ℕ → Bytes → Bytes
unfolding trim_by byte_len
trim_right_byte b s = reverse (trim_by (byte_len b) 0 (reverse s))

trims_ends : trim_space (bytes " \t\u{a0} a b \u{3000}\n") ≡ bytes "a b"
unfolding trim_space
trims_ends = refl

trims_all : trim_space (bytes "  ") ≡ []
unfolding trim_space
trims_all = refl
