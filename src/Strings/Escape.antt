-- ===== src/Strings/Escape.antt =====
-- html.EscapeString.
use gubal.Common.{
  ℕ, [], ◌∷◌, ◌++◌, ◌≢◌, arith, Bytes, bytes, nat_eq, if◌then◌else◌, All, All-append,
}

escape_byte : ℕ → Bytes
escape_byte c =
    if nat_eq c b'&'
    then bytes "&amp;"
    else if nat_eq c 39
    then bytes "&#39;"
    else if nat_eq c b'<'
    then bytes "&lt;"
    else if nat_eq c b'>'
    then bytes "&gt;"
    else if nat_eq c 34
    then bytes "&#34;"
    else c ∷ []

unfoldable pub escape_string : Bytes → Bytes
unfolding escape_byte
escape_string [] = []
escape_string (c ∷ s) = escape_byte c ++ escape_string s

abbrev pub IsPlain : ℕ → Type 0
IsPlain c = (c ≢ b'<') × (c ≢ b'>') × (c ≢ 34) × (c ≢ 39)

escape_byte-IsPlain : (c : ℕ) → All IsPlain (escape_byte c)
unfolding escape_byte
escape_byte-IsPlain c = ground arith

-- Escaped text holds no angle bracket and no quote.
pub escape_string-IsPlain : (s : Bytes) → All IsPlain (escape_string s)
unfolding escape_string
escape_string-IsPlain [] = tt
escape_string-IsPlain (c ∷ s) =
    All-append _ (escape_byte c) (escape_string s) (escape_byte-IsPlain c) (escape_string-IsPlain s)
