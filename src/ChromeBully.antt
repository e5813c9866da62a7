-- ===== src/ChromeBully.antt =====
-- cmd/chrome-bully/main.go: the headers and the names of frames.
pub mod Console
pub mod Driver
pub mod Capture
pub mod Main
pub mod Frames
pub mod Headers
pub mod Reading
pub mod Reported
use gubal.Common.{
  ℕ, zero, suc, ◌+◌, ◌-◌, ◌<◌, Bool, true, false, not, ◌&&◌, ◌||◌, List, [], ◌∷◌, ◌++◌, Option,
  none, some, ◌≡◌, refl, Bytes, bytes, ◌==◌, nat_eq, ltb, leb, if◌then◌else◌, Result, ok, err,
  length, drop, map,
}
use gubal.Common.Int.{ℤ}
use gubal.Strings.{cut, trim_space, last_index}

pub data HeaderError : Type 0 where
  no_colon empty_name : Bytes → HeaderError

-- m[key] = value
unfoldable pub put : Bytes → Bytes → List (Bytes × Bytes) → List (Bytes × Bytes)
put key value [] = (key, value) ∷ []
put key value ((k, v) ∷ m) = if k == key then (k, value) ∷ m else (k, v) ∷ put key value m

unfoldable pub parse_header : Bytes → Result HeaderError (Bytes × Bytes)
parse_header h = elim (cut b':' h) [
  | none ↦ err (no_colon h)
  | some (name, val) ↦
      if trim_space name == [] then err (empty_name h) else ok (trim_space name, trim_space val)
]

-- the loop over -header
unfoldable pub parse_headers :
    List (Bytes × Bytes) → List Bytes → Result HeaderError (List (Bytes × Bytes))
parse_headers headers [] = ok headers
parse_headers headers (h ∷ hs) = elim (parse_header h) [
  | err e ↦ err e
  | ok (name, val) ↦ parse_headers (put name val headers) hs
]

unfoldable pub chrome_version : Bytes → Bytes
chrome_version product = elim (last_index product b'/') [
  | some i ↦ if ltb (i + 1) (length product) then drop (i + 1) product else product
  | none ↦ if product == [] then bytes "unknown" else product
]

-- a byte that continues a rune
abbrev cont : ℕ → Bool
cont b = leb 0x80 b && leb b 0xbf

-- whether a byte may follow the first of a rune of more than one byte
second : ℕ → ℕ → Bool
second b c =
    if nat_eq b 0xe0
    then leb 0xa0 c && leb c 0xbf
    else if nat_eq b 0xed
    then leb 0x80 c && leb c 0x9f
    else if nat_eq b 0xf0
    then leb 0x90 c && leb c 0xbf
    else if nat_eq b 0xf4
    then leb 0x80 c && leb c 0x8f
    else cont c

-- how many bytes the first rune of a text takes behind its first byte; a byte that starts none is one
-- by itself
rune_rest : ℕ → Bytes → ℕ
unfolding second
rune_rest b [] = 0
rune_rest b (c ∷ []) = if leb 0xc2 b && leb b 0xdf && cont c then 1 else 0
rune_rest b (c ∷ d ∷ []) =
    if leb 0xc2 b && leb b 0xdf && cont c
    then 1
    else if leb 0xe0 b && leb b 0xef && second b c && cont d
    then 2
    else 0
rune_rest b (c ∷ d ∷ e ∷ s) =
    if leb 0xc2 b && leb b 0xdf && cont c
    then 1
    else if leb 0xe0 b && leb b 0xef && second b c && cont d
    then 2
    else if leb 0xf0 b && leb b 0xf4 && second b c && cont d && cont e
    then 3
    else 0

-- [A-Za-z0-9._-]
abbrev pub safe_byte : ℕ → Bool
safe_byte c =
    (leb b'a' c && leb c b'z')
    || (leb b'A' c && leb c b'Z')
    || (leb b'0' c && leb c b'9')
    || nat_eq c b'.'
    || nat_eq c b'_'
    || nat_eq c b'-'

-- strings.Map over the runes; the number is of bytes still to drop
sanitize_from : ℕ → Bytes → Bytes
unfolding rune_rest
sanitize_from skip [] = []
sanitize_from (suc skip) (b ∷ s) = sanitize_from skip s
sanitize_from zero (b ∷ s) = (if safe_byte b then b else b'-') ∷ sanitize_from (rune_rest b s) s

unfoldable pub sanitize : Bytes → Bytes
unfolding sanitize_from
sanitize s = sanitize_from 0 s

sanitizes : sanitize (bytes "a/é…b") ≡ bytes "a---b"
unfolding sanitize
sanitizes = refl

-- the name of the file of a frame: the version and the time, as Format gives it
unfoldable pub frame_name : Bytes → Bytes → Bytes
frame_name version stamp =
    bytes "chrome-" ++ (sanitize version ++ (bytes "-" ++ (stamp ++ bytes ".png")))
