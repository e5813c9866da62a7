-- ===== src/Strings/Paths.antt =====
-- filepath.Base on a system whose separator is a slash.
use gubal.Common.{◌+◌, [], ◌∷◌, none, some, ◌≡◌, refl, Bytes, bytes, drop}
use gubal.Strings.Trim.{trim_right_byte}
use gubal.Strings.Search.{last_index}

after_last_slash : Bytes → Bytes
unfolding last_index
after_last_slash s = elim (last_index s b'/') [ none ↦ s | some i ↦ drop (i + 1) s ]

base_of_trimmed : Bytes → Bytes
unfolding after_last_slash
base_of_trimmed [] = bytes "/"
base_of_trimmed (c ∷ s) = after_last_slash (c ∷ s)

unfoldable pub base : Bytes → Bytes
unfolding base_of_trimmed trim_right_byte
base [] = bytes "."
base (c ∷ s) = base_of_trimmed (trim_right_byte b'/' (c ∷ s))

last_element : base (bytes "/data/chrome-150.png//") ≡ bytes "chrome-150.png"
unfolding base
last_element = refl
